-- ===== src/MediaFs/Trash/Success.antt =====
-- From a MoveToTrash that succeeds to what it has done (internal/mediafs/trash.go).
use sudostream.MediaFs.Resolve.Plain.{resolve-done_plain}
use sudostream.MediaFs.Resolve.{full_of}
use sudostream.Text.Laws.Decide.{IsLiteral}
use sudostream.MediaFs.{true, path_join, resolve, eval_plain, os}
use sudostream.MediaFs.Resolve.{full_of, service_of, os_path_of_IsProper}
use sudostream.Text.{is_empty, join, slash}
use sudostream.Text.Laws.Decide.{IsLiteral}
use sudostream.MediaFs.Os.Renames.{rename-done, mkdir_all-done}
use sudostream.Text.Laws.Clean.{IsProper}
use sudostream.Prelude.{
  refl, ap₂, All-append, ◌++◌, subst, arith, ◌∙◌, ◌||◌, sym, ap, done-eq, All, ◌≡◌, [], ◌∷◌,
}
use sudostream.Text.{join, Bytes}
use sudostream.MediaFs.Os.{
  os_path, stat, Disk, FilePath, Node, with_entries, make_dirs, relocate, drop_within, parent,
  mkdir_all, rename,
}
use sudostream.MediaFs.Trash.{validate_trash_item_id, Planned, plan_target}
use sudostream.MediaFs.Trash.{
  trash_dir_name, resolve, some, is_trash_rel_path, is_empty, slash, false, done, List, os,
  delete_error, OnDisk, then_on, move_to_trash, plan_move,
}
use sudostream.MediaFs.Trash.Moved.{name_of_allowed, trash-IsProper, checked-done, then_on-done}
use sudostream.MediaFs.Trash.Moving.{plan_move-done, plan_target-done}
use sudostream.MediaFs.Trash.Done.{resolve-trashed, path_join-trashed, MoveDone, below, trashed}

abbrev Moves : FilePath → FilePath → Bytes → Bytes → Disk → OnDisk (Bytes × Bytes)
Moves source target rel trash_rel d = then_on (mkdir_all (parent target) d) os d λ made.
    then_on (rename source target made) delete_error made λ left. (done (rel, trash_rel), left)

moves-done :
    (source target : FilePath) (rel trash_rel : Bytes) (d : Disk) {rel' trash_rel' : Bytes}
    {moved : Disk}
    → Moves source target rel trash_rel d ≡ (done (rel', trash_rel'), moved)
    → (made : List (FilePath × Node)) × (make_dirs d.read_only [] (parent target) d.entries
        ≡ done made)
      × (d.read_only ≡ false)
      × (moved ≡ with_entries d (relocate source target (drop_within target made)))
      × (rel ≡ rel')
      × (trash_rel ≡ trash_rel')
moves-done source target rel trash_rel d h =
    let (made, e1, h1) =
      then_on-done (mkdir_all (parent target) d) os d
        (λ (made : Disk).
          then_on (rename source target made) delete_error made
            λ left. (done (rel, trash_rel), left))
        h in
    let (left, e2, h2) =
      then_on-done (rename source target made) delete_error made
        (λ (left : Disk). (done (rel, trash_rel), left)) h1 in
    let (es, e3, e4) = mkdir_all-done (parent target) d e1 in
    let (w, apart, e5) = rename-done source target made e2 in
    let same = done-eq (ap (λ (p : OnDisk (Bytes × Bytes)). p.0) h2) in
    (
      es,
      e3,
      ap (λ (x : Disk). x.read_only) (sym e4) ∙ w,
      sym (ap (λ (p : OnDisk (Bytes × Bytes)). p.1) h2)
          ∙ e5
          ∙ ap
              (λ (x : Disk). with_entries x (relocate source target (drop_within target x.entries)))
              e4,
      ap (λ (p : Bytes × Bytes). p.0) same,
      ap (λ (p : Bytes × Bytes). p.1) same,
    )

module _ (r : Bytes) (rs : List Bytes) (root_proper : All IsProper (r ∷ rs)) (id : Bytes)
    (id_proper : IsProper id) (id_literal : IsLiteral id) where
  assemble :
      (d moved : Disk) (rel trash_rel : Bytes) (segs : List Bytes)
      → IsLiteral rel
      → validate_trash_item_id id ≡ done tt
      → All IsProper segs
      → rel ≡ join slash segs
      → (is_empty rel || is_trash_rel_path rel) ≡ false
      → (n : Node) (made : List (FilePath × Node)) → stat d (os_path (full_of r rs segs)) ≡ some n
      → (dest : Bytes × Bytes)
      → resolve (eval_plain d) (service_of r rs) (path_join (trash_dir_name ∷ (id ∷ (rel ∷ []))))
        ≡ done dest
      → trash_rel ≡ path_join (trash_dir_name ∷ (id ∷ (rel ∷ [])))
      → make_dirs d.read_only [] (parent (os_path dest.0)) d.entries ≡ done made
      → d.read_only ≡ false
      → moved
        ≡ with_entries d (
            relocate
              (os_path (full_of r rs segs))
              (os_path dest.0)
              (drop_within (os_path dest.0) made))
      → MoveDone r rs id d moved rel trash_rel
  assemble d moved rel trash_rel [] lit v p e allowed n made there dest resolved te m w me =
      let none_left : is_empty (join slash []) ≡ true = unfold join in refl in
      absurd (ground (arith, allowed, ap is_empty e, none_left))
  assemble d moved rel trash_rel (x ∷ xs) lit v p e allowed n made there dest resolved te m w me =
      let lit' = subst IsLiteral e lit in
      let joined =
        ap (λ z. path_join (trash_dir_name ∷ (id ∷ (z ∷ [])))) e
        ∙ path_join-trashed r rs root_proper id id_proper id_literal x xs p in
      let target_eq : os_path dest.0 ≡ below r rs (trashed id (x ∷ xs)) =
        ap (λ (z : Bytes × Bytes). os_path z.0)
          (done-eq (
            sym resolved
            ∙ ap (resolve (eval_plain d) (service_of r rs)) joined
            ∙ resolve-trashed r rs root_proper id id_proper id_literal d x xs p lit'))
        ∙ os_path_of_IsProper ((r ∷ rs) ++ trashed id (x ∷ xs)) (
            All-append IsProper (r ∷ rs) (trashed id (x ∷ xs)) root_proper
              (trash-IsProper, (id_proper, p))) in
      let source_eq : os_path (full_of r rs (x ∷ xs)) ≡ below r rs (x ∷ xs) =
        os_path_of_IsProper ((r ∷ rs) ++ (x ∷ xs))
          (All-append IsProper (r ∷ rs) (x ∷ xs) root_proper p) in
      record {
        name = x;
        names = xs;
        proper = p;
        rel_eq = e;
        trash_rel_eq = te ∙ joined;
        valid = v;
        allowed = allowed;
        not_trash = name_of_allowed x xs (ground (arith, allowed, ap is_trash_rel_path e));
        node = n;
        there = unfold stat in subst (λ z. stat d z ≡ some n) source_eq there;
        made = made;
        made_eq =
            subst (λ z. make_dirs d.read_only [] (parent z) d.entries ≡ done made) target_eq m;
        writable = w;
        moved_eq =
            me
            ∙ ap₂ (λ a b. with_entries d (relocate a b (drop_within b made))) source_eq target_eq;
      }

  from_plan :
      (raw : Bytes) (d moved : Disk) (rel trash_rel full rel' : Bytes) (source target : FilePath)
      (planned planned_trash : Bytes) (made : List (FilePath × Node))
      → IsLiteral rel
      → validate_trash_item_id id ≡ done tt
      → resolve (eval_plain d) (service_of r rs) raw ≡ done (full, rel')
      → plan_target (service_of r rs) id full rel' d ≡ done (source, target, planned, planned_trash)
      → make_dirs d.read_only [] (parent target) d.entries ≡ done made
      → d.read_only ≡ false
      → moved ≡ with_entries d (relocate source target (drop_within target made))
      → planned ≡ rel
      → planned_trash ≡ trash_rel
      → MoveDone r rs id d moved rel trash_rel
  from_plan raw d moved rel trash_rel full rel' source target planned planned_trash made lit v e2 e3
        e4 w e5 re te =
      let (segs, p, e6, e7) = resolve-done_plain r rs root_proper d raw e2 in
      let (allowed, (n, there), (dest, e8, se, de, pe, tre)) =
        plan_target-done (service_of r rs) id d full rel' e3 in
      let same : rel' ≡ rel = sym pe ∙ re in
      assemble d moved rel trash_rel segs lit v p (sym same ∙ e6)
        (subst (λ z. (is_empty z || is_trash_rel_path z) ≡ false) same allowed) n made
        (subst (λ z. stat d (os_path z) ≡ some n) e7 there) dest
        (subst
          (λ z.
            resolve (eval_plain d) (service_of r rs) (path_join (trash_dir_name ∷ (id ∷ (z ∷ []))))
            ≡ done dest)
          same e8)
        (sym te ∙ tre ∙ ap (λ z. path_join (trash_dir_name ∷ (id ∷ (z ∷ [])))) same)
        (subst (λ z. make_dirs d.read_only [] (parent z) d.entries ≡ done made) de e4) w
        (e5
          ∙ ap₂ (λ a b. with_entries d (relocate a b (drop_within b made))) (se ∙ ap os_path e7) de)

  -- What a MoveToTrash that succeeds has done.
  pub move_to_trash-done :
      (raw : Bytes) (d : Disk) {moved : Disk} {rel trash_rel : Bytes}
      → move_to_trash (service_of r rs) raw id d ≡ (done (rel, trash_rel), moved)
      → IsLiteral rel
      → MoveDone r rs id d moved rel trash_rel
  unfolding move_to_trash
  move_to_trash-done raw d {moved} {rel} {trash_rel} h lit =
      let s = service_of r rs in
      let (plan, e1, h1) =
        checked-done (plan_move s raw id d) d (λ (p : Planned). Moves p.0 p.1 p.2 p.3 d) h in
      let (full, rel', v, e2, e3) = plan_move-done s id d raw e1 in
      let (made, e4, w, e5, re, te) = moves-done plan.0 plan.1 plan.2 plan.3 d h1 in
      from_plan raw d moved rel trash_rel full rel' plan.0 plan.1 plan.2 plan.3 made lit v e2 e3 e4
        w e5 re te
