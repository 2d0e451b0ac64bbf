-- ===== src/Maker/Paths.antt =====
-- `Parser::parsePath` takes a path apart, and printing its names gives the path back.
use tarfs.Base.{
  ℕ, zero, suc, ◌+◌, ◌≤◌, ◌<◌, ◌≡◌, ◌≢◌, refl, ap, ◌∙◌, subst, true, false, inl, inr, Bool-cases,
  ne→==, ◌==◌, Option, none, some, List, [], ◌∷◌, ◌++◌, arith, All, length,
}
use mathlib.Core.List.{append-nil, append_assoc}
use tarfs.Base.{length-append}
use tarfs.Meta.{Bytes}
use tarfs.Mkfs.{Component, get_fname}
use tarfs.Mkfs.Path.{IsSplit, whole, cut, get_fname-IsSplit}
use tarfs.Maker.Parser.{only_slashes, is_dots, parse_names, skip_slash, not_empty, parse_path}

-- The names with separators between them
unfoldable pub path_of : List Bytes → Bytes
path_of [] = []
path_of (n ∷ []) = n
path_of (n ∷ m ∷ ns) = n ++ b'/' ∷ path_of (m ∷ ns)

-- A name has no separator, and is not `.` or `..`.
abbrev pub IsName : Bytes → Type 0
IsName n = All (λ c. c ≢ b'/') n × (n ≢ b'.' ∷ []) × (n ≢ b'.' ∷ b'.' ∷ [])

-- The path is the names, and then separators.
pub record IsPath (s : Bytes) (names : List Bytes) : Type 0 where
  pub tail : Bytes
  pub slashes : only_slashes tail ≡ true
  pub joined : path_of names ++ tail ≡ s
  pub names_ok : All IsName names

only_slashes-cons : (cs : Bytes) → only_slashes cs ≡ true → only_slashes (b'/' ∷ cs) ≡ true
unfolding only_slashes
only_slashes-cons cs h = h

true-false : true ≡ false → ⊥
true-false e = cc

not_dot : (n : Bytes) → is_dots n ≡ false → n ≢ b'.' ∷ []
unfolding is_dots
not_dot n h e = true-false (rw (is_dots, e) at h)

not_dots : (n : Bytes) → is_dots n ≡ false → n ≢ b'.' ∷ b'.' ∷ []
unfolding is_dots
not_dots n h e = true-false (rw (is_dots, e) at h)

pub is_dots-IsName : (n : Bytes) → IsName n → is_dots n ≡ false
unfolding is_dots
is_dots-IsName [] h = refl
is_dots-IsName (c ∷ []) h = ne→== c b'.' (λ e. h.1 (ap (λ t. t ∷ []) e))
is_dots-IsName (c ∷ d ∷ []) h = elim (Bool-cases (c == b'.')) [
  | inl x ↦ let same : c ≡ b'.' = ground arith in rw x (ne→== d b'.' λ e. h.2 (rw (same, e) refl))
  | inr x ↦ rw x refl
]
is_dots-IsName (c ∷ d ∷ e ∷ n) h = refl

-- one more name in front
IsPath-cons :
    (n s rest : Bytes) (names : List Bytes)
    → IsName n
    → n ++ b'/' ∷ rest ≡ s
    → IsPath rest names
    → IsPath s (n ∷ names)
unfolding path_of
IsPath-cons n s rest [] name e h = record {
  tail = b'/' ∷ rest;
  slashes = only_slashes-cons rest (rw h.joined at h.slashes);
  joined = e;
  names_ok = (name, tt);
}
IsPath-cons n s rest (m ∷ ns) name e h = record {
  tail = h.tail;
  slashes = h.slashes;
  joined = append_assoc n (b'/' ∷ path_of (m ∷ ns)) h.tail ∙ ap (λ t. n ++ b'/' ∷ t) h.joined ∙ e;
  names_ok = (name, h.names_ok);
}

data NamesOf (x : Option (List Bytes)) (n : Bytes) (names : List Bytes) : Type 0 where
  names_of : (ns : List Bytes) → x ≡ some ns → names ≡ n ∷ ns → NamesOf x n names

some_cons :
    (x : Option (List Bytes)) (n : Bytes) (names : List Bytes)
    → (elim x as (λ y. Option (List Bytes)) [ none ↦ none | some ns ↦ some (n ∷ ns) ]) ≡ some names
    → NamesOf x n names
some_cons none n names e = cc
some_cons (some ns) n names e = names_of ns refl cc

parse_names-nil : (k : ℕ) (ns : List Bytes) → 0 < k → parse_names k [] ≡ some ns → ns ≡ []
unfolding parse_names only_slashes
parse_names-nil zero ns h e = absurd (omega arith)
parse_names-nil (suc k) ns h e = cc

some_slashes : (s : Bytes) → only_slashes s ≡ false → 0 < length s
unfolding only_slashes
some_slashes [] h = absurd cc
some_slashes (c ∷ cs) h = omega arith

IsPath-last : (n s : Bytes) (ns : List Bytes) → IsName n → n ≡ s → ns ≡ [] → IsPath s (n ∷ ns)
unfolding path_of only_slashes
IsPath-last n s ns name e z =
    rw z record { tail = []; slashes = refl; joined = append-nil n ∙ e; names_ok = (name, tt) }

IsPath-done :
    (s : Bytes) (names : List Bytes) → only_slashes s ≡ true → some [] ≡ some names → IsPath s names
unfolding path_of
IsPath-done s [] h e = record { tail = s; slashes = h; joined = refl; names_ok = tt }
IsPath-done s (n ∷ ns) h e = absurd cc

none-some : {names : List Bytes} → none ≡ some names → ⊥
none-some e = cc

-- What follows the first name, however `getFname` cuts it off
IsPath-rest :
    (k : ℕ) (s : Bytes) (c : Component) (ns : List Bytes)
    → length s < suc k
    → ((t : Bytes) (names : List Bytes)
        → length t < k
        → parse_names k t ≡ some names
        → IsPath t names)
    → IsName c.fname
    → only_slashes s ≡ false
    → IsSplit s c
    → parse_names k c.rest ≡ some ns
    → IsPath s (c.fname ∷ ns)
IsPath-rest k s c ns fuel ih name more (whole e l r) parsed = IsPath-last c.fname s ns name e (
    parse_names-nil k ns (omega (arith, some_slashes s more))
      (subst (λ t. parse_names k t ≡ some ns) r parsed))
IsPath-rest k s c ns fuel ih name more (cut e l) parsed =
    IsPath-cons c.fname s c.rest ns name e
      (ih c.rest ns (omega (arith, ap length e, length-append c.fname (b'/' ∷ c.rest))) parsed)

-- `parsePath` from `s` on takes it apart: if it does not return NULL, the names with separators between
-- them, and then nothing but separators, are `s`; and no name has a separator or is `.` or `..`. A round
-- for each byte and one more are enough.
pub parse_names-IsPath :
    (k : ℕ) (s : Bytes) (names : List Bytes)
    → length s < k
    → parse_names k s ≡ some names
    → IsPath s names
unfolding parse_names only_slashes path_of
parse_names-IsPath zero s names fuel e = absurd (omega arith)
parse_names-IsPath (suc k) s names fuel e =
    let next = get_fname s in
    let (plain, split) = get_fname-IsSplit s in
    elim (Bool-cases (only_slashes s)) [
      | inl h ↦ IsPath-done s names h (rw h at e)
      | inr h ↦ elim (Bool-cases (is_dots next.fname)) [
        | inl dots ↦ absurd (none-some (rw (h, dots) at e))
        | inr go ↦ elim (some_cons (parse_names k next.rest) next.fname names (rw (h, go) at e)) [
          | names_of ns parsed same ↦ rw same (
              IsPath-rest k s next ns fuel (parse_names-IsPath k)
                (plain, not_dot next.fname go, not_dots next.fname go) h split parsed)
        ]
      ]
    ]

some-not_empty :
    (x : Option (List Bytes)) (names : List Bytes)
    → (elim x as (λ y. Option (List Bytes)) [ none ↦ none | some ns ↦ not_empty ns ]) ≡ some names
    → (x ≡ some names) × (names ≢ [])
some-not_empty none names e = absurd cc
some-not_empty (some []) names e = absurd cc
some-not_empty (some (n ∷ ns)) names e = (e, λ z. absurd cc)

length-skip_slash : (s : Bytes) → length (skip_slash s) ≤ length s
length-skip_slash [] = omega arith
length-skip_slash (c ∷ cs) = ground arith

-- A path that `Parser::parsePath` accepts is, a slash in front of it aside, the names that it returns
-- with separators between them, and then nothing but separators; there is a name, and none has a
-- separator or is `.` or `..`.
pub parse_path-IsPath :
    (path : Bytes) (names : List Bytes)
    → parse_path path ≡ some names
    → IsPath (skip_slash path) names × (names ≢ [])
unfolding parse_path
parse_path-IsPath path names e =
    let (parsed, more) = some-not_empty (parse_names (length path + 1) (skip_slash path)) names e in
    (
      parse_names-IsPath (length path + 1) (skip_slash path) names
          (omega (arith, length-skip_slash path)) parsed,
      more,
    )
