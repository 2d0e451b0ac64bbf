-- ===== src/Mkfs/Path.antt =====
-- `getFname` takes a path apart.
use tarfs.Base.{
  ℕ, ◌≡◌, ◌≢◌, refl, ap, true, false, inl, inr, Bool-cases, [], ◌∷◌, ◌++◌, arith, All, ◌==◌,
}
use tarfs.Meta.{Bytes}
use tarfs.Mkfs.{Component, get_fname, ends}

-- The component `c` of the path, and what is left: the path up to the first slash, or all of it. It is
-- the last one if there is no slash, or nothing or a NUL behind the slash.
pub data IsSplit (path : Bytes) (c : Component) : Type 0 where
  whole : c.fname ≡ path → c.is_last ≡ true → c.rest ≡ [] → IsSplit path c
  cut : c.fname ++ b'/' ∷ c.rest ≡ path → c.is_last ≡ ends c.rest → IsSplit path c

IsSplit-cons :
    (x : ℕ) (path : Bytes) (c : Component)
    → IsSplit path c
    → IsSplit (x ∷ path) (record c { fname = x ∷ c.fname })
IsSplit-cons x path c (whole e l r) = whole (ap (λ t. x ∷ t) e) l r
IsSplit-cons x path c (cut e l) = cut (ap (λ t. x ∷ t) e) l

-- `getFname` returns the path's first component, which has no slash, whether it is the last, and the
-- rest of the path behind the slash.
pub get_fname-IsSplit :
    (path : Bytes) → All (λ c. c ≢ b'/') (get_fname path).fname × IsSplit path (get_fname path)
unfolding get_fname
get_fname-IsSplit [] = (tt, whole refl refl refl)
get_fname-IsSplit (c ∷ cs) =
    let (plain, split) = get_fname-IsSplit cs in
    elim (Bool-cases (c == b'/')) [
      | inl h ↦ rw (get_fname, h) (tt, cut (ap (λ t. t ∷ cs) (ground arith)) refl)
      | inr h ↦ rw (get_fname, h) ((ground arith, plain), IsSplit-cons c cs (get_fname cs) split)
    ]

-- A name behind which a slash comes
pub get_fname-append :
    (n t : Bytes)
    → All (λ c. c ≢ b'/') n
    → ((get_fname (n ++ b'/' ∷ t)).fname ≡ n) × ((get_fname (n ++ b'/' ∷ t)).rest ≡ t)
unfolding get_fname
get_fname-append [] t h = (refl, refl)
get_fname-append (c ∷ n) t h =
    let (name, rest) = get_fname-append n t h.1 in
    let other : (c == b'/') ≡ false = ground arith in rw other (ap (λ u. c ∷ u) name, rest)

-- A name that nothing follows
pub get_fname-whole :
    (n : Bytes) → All (λ c. c ≢ b'/') n → ((get_fname n).fname ≡ n) × ((get_fname n).rest ≡ [])
unfolding get_fname
get_fname-whole [] h = (refl, refl)
get_fname-whole (c ∷ n) h =
    let (name, rest) = get_fname-whole n h.1 in
    let other : (c == b'/') ≡ false = ground arith in rw other (ap (λ u. c ∷ u) name, rest)
