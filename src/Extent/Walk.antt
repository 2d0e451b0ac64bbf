-- ===== src/Extent/Walk.antt =====
-- The walk of `insertDataExtent` over the indirect blocks ends at a block of the chain, with a merge
-- there or at the last one.
use mathlib.Core.List.{append-nil, append_assoc}
use tarfs.Base.{
  ℕ, zero, suc, ◌≤◌, ◌<◌, ◌≡◌, ◌≢◌, refl, ap, ◌∙◌, sym, subst, Option, none, some, List, [], ◌∷◌,
  ◌++◌, arith, All, All-split, length, ne→==, eq→==,
}
use tarfs.Meta.{Dext, IndExt, tarblk_none}
use tarfs.Manager.{Block, ind_ext, Manager, Run, M, ok, as_ind_ext}
use tarfs.Manager.Io.{IsSound, read_data-within, write_data-within, rewritten}
use tarfs.Extent.{walk_step, walk_indirect, merge_extent, merged}
use tarfs.Extent.Spec.{insert}
use tarfs.Extent.Chain.{Link, used, links_extents, Chain, last, more, Fits, Inside, Whole}
use tarfs.Extent.Merge.{takes_in, goes_on, merge_extent-insert}

-- The same block at all these numbers
abbrev pub Agree : (ℕ → Block) → (ℕ → Block) → Link → Type 0
Agree f g (b, x) = g b ≡ f b

-- Block `q` of the chain from `p`: what stands before it and behind it, and how a chain is put
-- together again when it is rewritten.
pub record At (f : ℕ → Block) (p : ℕ) (ys : List Link) (q : ℕ) (x : IndExt) : Type 0 where
  pub front : List Link
  pub back : List Link
  pub split : ys ≡ front ++ (q, x) ∷ back
  pub num : Whole x
  pub before :
      (g : ℕ → Block) (zs : List Link)
      → All (Agree f g) front
      → Chain g q zs
      → Chain g p (front ++ zs)
  pub from :
      (g : ℕ → Block) (x' : IndExt)
      → All (Agree f g) back
      → g q ≡ ind_ext x'
      → Whole x'
      → x'.ie_next ≡ x.ie_next
      → Chain g q ((q, x') ∷ back)

pub data WalkEnd (m : Manager) (dep : Dext) (p : ℕ) (ys : List Link)
    : Run (Option (ℕ × IndExt)) → Type 0 where
  took_in :
      {q : ℕ} {x : IndExt} (es : List Dext) (at : At m.world.blocks p ys q x)
      → length es ≡ length x.ie_dext
      → insert dep (links_extents ys)
        ≡ links_extents (at.front ++ (q, record x { ie_dext = es }) ∷ at.back)
      → WalkEnd m dep p ys (ok none (rewritten m q (ind_ext (record x { ie_dext = es }) ∷ [])))
  at_end :
      {q : ℕ} {x : IndExt} (at : At m.world.blocks p ys q x)
      → at.back ≡ []
      → insert dep (links_extents ys) ≡ links_extents ys ++ dep ∷ []
      → WalkEnd m dep p ys (ok (some (q, x)) m)

abbrev At-last :
    {f : ℕ → Block} {p : ℕ} {x : IndExt}
    → Whole x
    → x.ie_next ≡ tarblk_none
    → At f p ((p, x) ∷ []) p x
At-last num end = record {
  front = [];
  back = [];
  split = refl;
  num = num;
  before = λ g zs same c. c;
  from = λ g x' same at num' e. last at num' (e ∙ end);
}

abbrev At-here :
    {f : ℕ → Block} {p : ℕ} {x : IndExt} {ys : List Link}
    → Whole x
    → x.ie_next ≢ tarblk_none
    → Chain f x.ie_next ys
    → ((g : ℕ → Block) → All (Agree f g) ys → Chain g x.ie_next ys)
    → At f p ((p, x) ∷ ys) p x
At-here {ys} num ne chain frame = record {
  front = [];
  back = ys;
  split = refl;
  num = num;
  before = λ g zs same c. c;
  from = λ g x' same at num' e.
      more at num' (λ h. ne (sym e ∙ h)) (subst (λ t. Chain g t ys) (sym e) (frame g same));
}

pub Chain-frame :
    {f : ℕ → Block} (g : ℕ → Block) {p : ℕ} {ys : List Link}
    → Chain f p ys
    → All (Agree f g) ys
    → Chain g p ys
Chain-frame g (last at num end) (same, _) = last (same ∙ at) num end
Chain-frame g (more at num ne chain) (same, others) =
    more (same ∙ at) num ne (Chain-frame g chain others)

abbrev At-behind :
    {f : ℕ → Block} {p q : ℕ} {z x : IndExt} {ys : List Link}
    → f p ≡ ind_ext z
    → Whole z
    → z.ie_next ≢ tarblk_none
    → At f z.ie_next ys q x
    → At f p ((p, z) ∷ ys) q x
At-behind {p} {z} there num ne at = record {
  front = (p, z) ∷ at.front;
  back = at.back;
  split = ap (λ t. (p, z) ∷ t) at.split;
  num = at.num;
  before = λ g zs (same, others) c. more (same ∙ there) num ne (at.before g zs others c);
  from = at.from;
}

module _ {m : Manager} (sound : IsSound m) (dep : Dext) (fit : Fits dep)
    (behind_archive : 0 < m.m_orgsize) where
  WalkEnd-behind :
      {p : ℕ} {z : IndExt} {ys : List Link} {r : Run (Option (ℕ × IndExt))}
      → m.world.blocks p ≡ ind_ext z
      → Whole z
      → z.ie_next ≢ tarblk_none
      → ((fs : List Dext) → insert dep (used z ++ fs) ≡ used z ++ insert dep fs)
      → WalkEnd m dep z.ie_next ys r
      → WalkEnd m dep p ((p, z) ∷ ys) r
  WalkEnd-behind {z} {ys} there num ne law (took_in es at len e) =
      took_in es (At-behind there num ne at) len (law (links_extents ys) ∙ ap (λ t. used z ++ t) e)
  WalkEnd-behind {z} {ys} there num ne law (at_end at empty e) =
      at_end (At-behind there num ne at) empty (
        law (links_extents ys)
        ∙ ap (λ t. used z ++ t) e
        ∙ sym (append_assoc (used z) (links_extents ys) (dep ∷ [])))

  module _ {p : ℕ} {x : IndExt} {ys : List Link} {es : List Dext}
      (rest : M (Option (ℕ × IndExt))) where
    walk_step-merged :
        (at : At m.world.blocks p ys p x)
        → merge_extent x.ie_num x.ie_dext dep ≡ merged es
        → length es ≡ length x.ie_dext
        → Inside m (p, x)
        → insert dep (links_extents ys)
          ≡ links_extents (at.front ++ (p, record x { ie_dext = es }) ∷ at.back)
        → WalkEnd m dep p ys (walk_step p x dep rest m)
    unfolding walk_step
    walk_step-merged at e len (lo, hi) law =
        rw
          (
            walk_step,
            e,
            ne→== p 0 (λ z. omega arith),
            write_data-within sound (ind_ext (record x { ie_dext = es }) ∷ []) p (omega arith),
          )
          (took_in es at len law)

  pub walk_indirect-WalkEnd :
      (k : ℕ) {p : ℕ} {ys : List Link}
      → Chain m.world.blocks p ys
      → All (Inside m) ys
      → All Fits (links_extents ys)
      → length ys ≤ k
      → WalkEnd m dep p ys (walk_indirect k dep p m)
  unfolding walk_indirect as_ind_ext insert
  walk_indirect-WalkEnd zero (last at num end) inside fits fuel = absurd (omega arith)
  walk_indirect-WalkEnd zero (more at num ne chain) inside fits fuel = absurd (omega arith)
  walk_indirect-WalkEnd (suc k) (last {p} {x} at num end) inside fits fuel =
      let (mine, others) = All-split Fits (used x) [] fits in
      rw (read_data-within sound p inside.0.1, at)
        (elim (merge_extent-insert x.ie_num x.ie_dext dep (omega arith) mine fit) [
          | takes_in es r len law ↦
              walk_step-merged (walk_indirect k dep x.ie_next) (At-last num end) r len inside.0
                (law [])
          | goes_on r law ↦
              rw (walk_step, r, eq→== x.ie_next tarblk_none end)
                (at_end (At-last num end) refl (law [] ∙ rw append-nil))
        ])
  walk_indirect-WalkEnd (suc k) (more {p} {x} {ys} at num ne chain) inside fits fuel =
      let (mine, others) = All-split Fits (used x) (links_extents ys) fits in
      rw (read_data-within sound p inside.0.1, at)
        (elim (merge_extent-insert x.ie_num x.ie_dext dep (omega arith) mine fit) [
          | takes_in es r len law ↦
              walk_step-merged (walk_indirect k dep x.ie_next)
                (At-here num ne chain (λ g same. Chain-frame g chain same)) r len inside.0
                (law (links_extents ys))
          | goes_on r law ↦
              rw (walk_step, r, ne→== x.ie_next tarblk_none ne)
                (WalkEnd-behind at num ne law
                  (walk_indirect-WalkEnd k chain inside.1 others (omega arith)))
        ])
