-- ===== src/Playback/Container.antt =====
-- The container of a file is read off its name alone (internal/playback/decide.go).
use sudostream.Prelude.{◌∙◌, refl, [], ap, ◌≡◌, ◌∷◌}
use mathlib.Core.List.{reverse, ◌++◌, reverse-append, reverse-cons, append_assoc}
use sudostream.Playback.{slash, Bytes, ext_reversed, ext_of, container_from_path}

ext_reversed-append : (r q ext : Bytes) → ext_reversed (r ++ (slash ∷ q)) ext ≡ ext_reversed r ext
unfolding ext_reversed
ext_reversed-append [] q ext = refl
ext_reversed-append (c ∷ r) q ext = rw (ext_reversed-append r q (c ∷ ext)) refl

ext_of-append : (folder name : Bytes) → ext_of (folder ++ (slash ∷ name)) ≡ ext_of name
unfolding ext_of
ext_of-append folder name =
    ap (λ s. ext_reversed s [])
      (reverse-append folder (slash ∷ name)
        ∙ ap (λ (s : Bytes). s ++ reverse folder) (reverse-cons slash name)
        ∙ append_assoc (reverse name) (slash ∷ []) (reverse folder))
    ∙ ext_reversed-append (reverse name) (reverse folder) []

-- Whatever the folder is called, dots included, ContainerFromPath gives the container of the name
-- that follows it.
pub container_from_path-append :
    (folder name : Bytes)
    → container_from_path (folder ++ (slash ∷ name)) ≡ container_from_path name
unfolding container_from_path
container_from_path-append folder name = rw (ext_of-append folder name) refl
