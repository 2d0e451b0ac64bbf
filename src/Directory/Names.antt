-- ===== src/Directory/Names.antt =====
-- When an entry has the name that is looked for, said by equality of byte strings, and that the comparisons of
-- `tarfs_lookup` of mkfs and of `__tarfs_lookup` test this.
use tarfs.Base.{
  ℕ, zero, suc, ◌≡◌, refl, ap, sym, ◌∙◌, Bool, true, false, inl, inr, Bool-cases, [], ◌∷◌, leb,
  ◌==◌, ◌&&◌, not, length, take, arith,
}
use tarfs.Meta.{Bytes, Direct, tarblk_none}
use tarfs.Mkfs.{cstring}
use tarfs.Directory.{LookupOp, strncmp_eq, matches}
use tarfs.Knl.Dir.{memcmp_eq, names}

-- The strings are the same.
pub eq_bytes : Bytes → Bytes → Bool
eq_bytes [] [] = true
eq_bytes [] (d ∷ b) = false
eq_bytes (c ∷ a) [] = false
eq_bytes (c ∷ a) (d ∷ b) = c == d && eq_bytes a b

-- The entry is in use, and its first `d_namelen` bytes, up to a zero, are those of the name.
pub has_cname : LookupOp → Direct → Bool
has_cname op dp =
    not (dp.d_ino == tarblk_none)
    && dp.d_namelen == op.lo_namelen
    && eq_bytes (cstring (take op.lo_namelen dp.d_name)) (cstring (take op.lo_namelen op.lo_fname))

-- The entry is in use, and its name has the first `len` bytes of `name`, which are there.
pub has_name : (name : Bytes) (len : ℕ) → Direct → Bool
has_name name len dp =
    not (dp.d_ino == tarblk_none)
    && len == dp.d_namelen
    && (leb len (length name)
        && leb len (length dp.d_name)
        && eq_bytes (take len name) (take len dp.d_name))

strncmp_eq-eq_bytes :
    (n : ℕ) (a b : Bytes) → strncmp_eq n a b ≡ eq_bytes (cstring (take n a)) (cstring (take n b))
unfolding strncmp_eq eq_bytes cstring
strncmp_eq-eq_bytes zero a b = refl
strncmp_eq-eq_bytes (suc n) [] [] = refl
strncmp_eq-eq_bytes (suc n) [] (d ∷ b) = elim (Bool-cases (d == 0)) [
  | inl h ↦ rw h refl
  | inr h ↦ rw h refl
]
strncmp_eq-eq_bytes (suc n) (c ∷ a) [] = elim (Bool-cases (c == 0)) [
  | inl h ↦ rw h refl
  | inr h ↦ rw h refl
]
strncmp_eq-eq_bytes (suc n) (c ∷ a) (d ∷ b) = elim (Bool-cases (c == d)) [
  | inl h ↦ elim (Bool-cases (c == 0)) [
    | inl z ↦ let z' : (d == 0) ≡ true = ground arith in rw (h, z, z') refl
    | inr z ↦
        let z' : (d == 0) ≡ false = ground arith in rw (h, z, z', h) (strncmp_eq-eq_bytes n a b)
  ]
  | inr h ↦ elim (Bool-cases (c == 0)) [
    | inl z ↦ let z' : (d == 0) ≡ false = ground arith in rw (h, z, z') refl
    | inr z ↦ elim (Bool-cases (d == 0)) [
      | inl w ↦ rw (h, z, w) refl
      | inr w ↦ rw (h, z, w, h) refl
    ]
  ]
]

pub matches-has_cname : (op : LookupOp) (dp : Direct) → matches op dp ≡ has_cname op dp
unfolding matches has_cname
matches-has_cname op dp =
    ap (λ t. not (dp.d_ino == tarblk_none) && dp.d_namelen == op.lo_namelen && t)
      (strncmp_eq-eq_bytes op.lo_namelen dp.d_name op.lo_fname)

leb-suc : (n m : ℕ) → leb (suc n) (suc m) ≡ leb n m
leb-suc n m = elim (Bool-cases (leb n m)) [
  | inl h ↦ rw h (ground arith)
  | inr h ↦ rw h (ground arith)
]

and_swap : (p e z : Bool) → (z && (p && e)) ≡ (p && (z && e))
and_swap true e z = refl
and_swap false e true = refl
and_swap false e false = refl

both : {x x' y y' : Bool} → x ≡ x' → y ≡ y' → (x && y) ≡ (x' && y')
both {x} {x'} {y} {y'} e f = ap (λ t. t && y) e ∙ ap (λ t. x' && t) f

memcmp_eq-eq_bytes :
    (n : ℕ) (a b : Bytes)
    → memcmp_eq n a b ≡ (leb n (length a) && leb n (length b) && eq_bytes (take n a) (take n b))
unfolding memcmp_eq eq_bytes
memcmp_eq-eq_bytes zero a b =
    let x : leb 0 (length a) ≡ true = ground arith in
    let y : leb 0 (length b) ≡ true = ground arith in rw (x, y) refl
memcmp_eq-eq_bytes (suc n) [] b = let x : leb (suc n) 0 ≡ false = ground arith in rw x refl
memcmp_eq-eq_bytes (suc n) (c ∷ a) [] =
    let y : leb (suc n) 0 ≡ false = ground arith in
    elim (Bool-cases (leb (suc n) (suc (length a)))) [ inl x ↦ rw (x, y) refl | inr x ↦ rw x refl ]
memcmp_eq-eq_bytes (suc n) (c ∷ a) (d ∷ b) =
    ap (λ t. c == d && t) (memcmp_eq-eq_bytes n a b)
    ∙ and_swap (leb n (length a) && leb n (length b)) (eq_bytes (take n a) (take n b)) (c == d)
    ∙ ap (λ t. t && (c == d && eq_bytes (take n a) (take n b)))
        (sym (both (leb-suc n (length a)) (leb-suc n (length b))))

pub names-has_name :
    (name : Bytes) (len : ℕ) (dp : Direct) → names name len dp ≡ has_name name len dp
unfolding names has_name
names-has_name name len dp =
    ap (λ t. not (dp.d_ino == tarblk_none) && len == dp.d_namelen && t)
      (memcmp_eq-eq_bytes len name dp.d_name)
