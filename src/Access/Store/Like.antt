-- ===== src/Access/Store/Like.antt =====
-- Which rows of media_metadata, watch_state and favorites deletePrefixRows and reassignPrefix take
-- to lie below a root (internal/access/postgres/store.go): `rel_path LIKE root || '/%'`.
use mathlib.Core.List.{append_assoc}
use sudostream.Access.Store.{MediaRow, Server}
use sudostream.Access.Store.Roots.{below}
use sudostream.Prelude.{
  [], All, ap, ap₂, arith, Bool, Bool-cases, false, inl, inr, sym, true, ℕ, ◌&&◌, ◌++◌, ◌<◌, ◌==◌,
  ◌||◌, ◌∙◌, ◌∷◌, ◌≡◌, ◌≢◌,
}
use sudostream.Text.{Bytes, bytes_eq, codes, has_prefix, slash}
use sudostream.Text.Laws.Equality.{bytes_eq_refl}
use sudostream.Text.Laws.Prefix.{has_prefix-append}

-- A character that stands for itself in a pattern of LIKE.
pub record IsPlain (c : ℕ) : Type 0 where
  pub not_percent : c ≢ b'%'
  pub not_underscore : c ≢ b'_'
  pub not_backslash : c ≢ 92

-- What PostgreSQL documents of LIKE, on ASCII characters where a single one is matched.
pub record LikeLaws (like : Bytes → Bytes → Bool) : Type 0 where
  pub same : (c : ℕ) (s p : Bytes) → IsPlain c → like (c ∷ s) (c ∷ p) ≡ like s p
  pub other : (c d : ℕ) (s p : Bytes) → IsPlain d → c ≢ d → like (c ∷ s) (d ∷ p) ≡ false
  pub short : (d : ℕ) (p : Bytes) → IsPlain d → like [] (d ∷ p) ≡ false
  pub any_one : (c : ℕ) (s p : Bytes) → c < 128 → like (c ∷ s) (b'_' ∷ p) ≡ like s p
  pub any_rest : (s : Bytes) → like s (b'%' ∷ []) ≡ true

module _ (like : Bytes → Bytes → Bool) (laws : LikeLaws like) where
  like-prefix : (s p : Bytes) → All IsPlain p → like s (p ++ (b'%' ∷ [])) ≡ has_prefix s p
  unfolding has_prefix
  like-prefix s [] h = laws.any_rest s
  like-prefix [] (d ∷ p) h = laws.short d (p ++ (b'%' ∷ [])) h.0
  like-prefix (c ∷ s) (d ∷ p) h = elim (Bool-cases (c == d)) [
    | inl t ↦
        let e : c ≡ d = ground arith in
        rw (t, e) (laws.same d s (p ++ (b'%' ∷ [])) h.0 ∙ like-prefix s p h.1)
    | inr f ↦ rw f (laws.other c d s (p ++ (b'%' ∷ [])) h.0 (ground arith))
  ]

  like-underscore :
      (x : Bytes) (c : ℕ) (s p : Bytes)
      → All IsPlain x
      → c < 128
      → like (x ++ (c ∷ s)) (x ++ (b'_' ∷ p)) ≡ like s p
  like-underscore [] c s p h lt = laws.any_one c s p lt
  like-underscore (a ∷ x) c s p h lt =
      laws.same a (x ++ (c ∷ s)) (x ++ (b'_' ∷ p)) h.0 ∙ like-underscore x c s p h.1 lt

plain_slash : IsPlain slash
plain_slash = record {
  not_percent = omega arith;
  not_underscore = omega arith;
  not_backslash = omega arith;
}

All-plain-slash : (p : Bytes) → All IsPlain p → All IsPlain (p ++ (slash ∷ []))
All-plain-slash [] h = (plain_slash, tt)
All-plain-slash (c ∷ p) h = (h.0, All-plain-slash p h.1)

-- Where the root has no character that LIKE reads as more than itself, the rows taken are those
-- of the library at the root or under it, and no other.
pub below_of_IsPlain :
    (server : Server) (id prefix : Bytes) (row : MediaRow)
    → LikeLaws server.like
    → All IsPlain prefix
    → below server id prefix row ≡ (
        bytes_eq row.library_id id
        && (bytes_eq row.rel_path prefix || has_prefix row.rel_path (prefix ++ (slash ∷ []))))
below_of_IsPlain server id prefix row laws plain =
    ap (λ (b : Bool). bytes_eq row.library_id id && (bytes_eq row.rel_path prefix || b))
      (ap (server.like row.rel_path) (sym (append_assoc prefix (slash ∷ []) (b'%' ∷ [])))
        ∙ like-prefix server.like laws row.rel_path (prefix ++ (slash ∷ []))
            (All-plain-slash prefix plain))

-- Where the root has an underscore, rows of the library under any root that differs from it in
-- that one place are taken too.
pub below_of_underscore :
    (server : Server) (id x y s user : Bytes) (c : ℕ)
    → LikeLaws server.like
    → All IsPlain x
    → All IsPlain y
    → c < 128
    → below server id
        (x ++ (b'_' ∷ y))
        (record { user_id = user; library_id = id; rel_path = x ++ (c ∷ (y ++ (slash ∷ s))) })
      ≡ true
below_of_underscore server id x y s user c laws plain_x plain_y lt =
    rw (bytes_eq_refl id) (or_true _ _ matched)
  where
    or_true : (a b : Bool) → b ≡ true → (a || b) ≡ true
    or_true a b h = ground arith

    rest : Bytes
    rest = slash ∷ (b'%' ∷ [])

    matched : server.like (x ++ (c ∷ (y ++ (slash ∷ s)))) ((x ++ (b'_' ∷ y)) ++ codes "/%") ≡ true
    matched =
        ap (server.like (x ++ (c ∷ (y ++ (slash ∷ s))))) (append_assoc x (b'_' ∷ y) rest)
        ∙ like-underscore server.like laws x c (y ++ (slash ∷ s)) (y ++ rest) plain_x lt
        ∙ ap₂ server.like (sym (append_assoc y (slash ∷ []) s))
            (sym (append_assoc y (slash ∷ []) (b'%' ∷ [])))
        ∙ like-prefix server.like laws ((y ++ (slash ∷ [])) ++ s) (y ++ (slash ∷ []))
            (All-plain-slash y plain_y)
        ∙ has_prefix-append (y ++ (slash ∷ [])) s
