-- ===== src/Maker/Printing.antt =====
-- `Parser::parsePath` gives back the names of a path that is printed from them.
use tarfs.Base.{
  ℕ, zero, suc, ◌+◌, ◌<◌, ◌≡◌, ◌≢◌, refl, ap, ◌∙◌, subst, false, Option, none, some, List, [], ◌∷◌,
  ◌++◌, arith, All, ◌==◌, length, length-append,
}
use mathlib.Core.List.{append-nil}
use tarfs.Meta.{Bytes}
use tarfs.Mkfs.{get_fname}
use tarfs.Mkfs.Path.{get_fname-append, get_fname-whole}
use tarfs.Maker.Parser.{only_slashes, is_dots, parse_names, skip_slash, not_empty, parse_path}
use tarfs.Maker.Paths.{path_of, IsName, is_dots-IsName}

-- A name that is printed and read back
abbrev pub IsProper : Bytes → Type 0
IsProper n = IsName n × (n ≢ [])

only_slashes-proper : (n t : Bytes) → IsProper n → only_slashes (n ++ t) ≡ false
unfolding only_slashes
only_slashes-proper [] t h = absurd (h.1 refl)
only_slashes-proper (c ∷ n) t h =
    let other : (c == b'/') ≡ false = ground (arith, h.0.0.0) in rw other refl

parse_names-done : (k : ℕ) → parse_names k [] ≡ some []
unfolding parse_names only_slashes
parse_names-done zero = refl
parse_names-done (suc k) = refl

parse_names-next :
    (k : ℕ) (s n : Bytes) (names : List Bytes)
    → only_slashes s ≡ false
    → IsName n
    → (get_fname s).fname ≡ n
    → parse_names k (get_fname s).rest ≡ some names
    → parse_names (suc k) s ≡ some (n ∷ names)
unfolding parse_names
parse_names-next k s n names more name first parsed =
    let plain : is_dots (get_fname s).fname ≡ false = ap is_dots first ∙ is_dots-IsName n name in
    rw (more, plain, parsed) (ap (λ t. some (t ∷ names)) first)

parse_names-path_of :
    (k : ℕ) (names : List Bytes)
    → All IsProper names
    → length (path_of names) < k
    → parse_names k (path_of names) ≡ some names
unfolding parse_names only_slashes path_of
parse_names-path_of zero names h fuel = absurd (omega arith)
parse_names-path_of (suc k) [] h fuel = refl
parse_names-path_of (suc k) (n ∷ []) h fuel =
    let (first, rest) = get_fname-whole n h.0.0.0 in
    parse_names-next k n n []
      (subst (λ t. only_slashes t ≡ false) (append-nil n) (only_slashes-proper n [] h.0)) h.0.0
      first (rw rest (parse_names-done k))
parse_names-path_of (suc k) (n ∷ m ∷ ns) h fuel =
    let (first, rest) = get_fname-append n (path_of (m ∷ ns)) h.0.0.0 in
    parse_names-next k (n ++ b'/' ∷ path_of (m ∷ ns)) n (m ∷ ns)
      (only_slashes-proper n (b'/' ∷ path_of (m ∷ ns)) h.0) h.0.0 first
      (rw rest (
        parse_names-path_of k (m ∷ ns) h.1
          (omega (arith, length-append n (b'/' ∷ path_of (m ∷ ns))))))

skip_slash-path_of :
    (n : Bytes) (ns : List Bytes) → IsProper n → skip_slash (path_of (n ∷ ns)) ≡ path_of (n ∷ ns)
unfolding path_of
skip_slash-path_of [] ns h = absurd (h.1 refl)
skip_slash-path_of (c ∷ n) [] h =
    let other : (c == b'/') ≡ false = ground (arith, h.0.0.0) in rw other refl
skip_slash-path_of (c ∷ n) (m ∷ ns) h =
    let other : (c == b'/') ≡ false = ground (arith, h.0.0.0) in rw other refl

parse_path-skip_slash :
    (path s n : Bytes) (ns : List Bytes)
    → skip_slash path ≡ s
    → parse_names (length path + 1) s ≡ some (n ∷ ns)
    → parse_path path ≡ some (n ∷ ns)
unfolding parse_path
parse_path-skip_slash path s n ns skip parsed =
    ap (λ x. elim x as (λ y. Option (List Bytes)) [ none ↦ none | some names ↦ not_empty names ])
      (ap (parse_names (length path + 1)) skip ∙ parsed)

-- `Parser::parsePath` gives back the names of a path that is printed from at least one name, where no
-- name is empty, is `.` or `..`, or has a separator.
pub parse_path-path_of :
    (n : Bytes) (ns : List Bytes)
    → All IsProper (n ∷ ns)
    → parse_path (path_of (n ∷ ns)) ≡ some (n ∷ ns)
parse_path-path_of n ns h =
    let s = path_of (n ∷ ns) in
    parse_path-skip_slash s s n ns (skip_slash-path_of n ns h.0)
      (parse_names-path_of (length s + 1) (n ∷ ns) h (omega arith))
