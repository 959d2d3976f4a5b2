-- ===== src/Stack/Held.antt =====
-- The stacks that a client of one allocator holds, their blocks, and taking one of them out.
use unico.Common.{
  ℕ, zero, suc, ◌+◌, ◌≤◌, ◌<◌, ◌≡◌, ◌∙◌, subst, some_inj, ◌≢◌, refl, Option, none, some, List, [],
  ◌∷◌, arith, ◌⊎◌, inl, inr, false, Option-cases,
}
use mathlib.Core.Option
use unico.Layout.{Layout}
use unico.Stack.{Stack, Heap, Block, dropper_in, remove_block, block_eqb}
use unico.Stack.Ownership.{Owns, dropper_in_block, block_eqb_refl}

abbrev pub Apart : Block → Block → Type 0
Apart b c = (b.0 + b.1.size ≤ c.0) ⊎ (c.0 + c.1.size ≤ b.0)

Apart-symm : (b c : Block) → Apart b c → Apart c b
Apart-symm b c (inl h) = inr h
Apart-symm b c (inr h) = inl h

abbrev pub ApartFrom : Block → List Block → Type 0
ApartFrom b [] = Unit
ApartFrom b (c ∷ cs) = Apart b c × ApartFrom b cs

abbrev pub Disjoint : List Block → Type 0
Disjoint [] = Unit
Disjoint (b ∷ bs) = ApartFrom b bs × Disjoint bs

-- A client's state: the memory, and the stacks that it holds.
pub record Pool : Type 0 where
  pub heap : Heap
  pub stacks : List Stack

pub take_at : ℕ → List Stack → Option (Stack × List Stack)
take_at i [] = none
take_at zero (s ∷ ss) = some (s, ss)
take_at (suc i) (s ∷ ss) = Option.map (λ r. (r.0, s ∷ r.1)) (take_at i ss)

pub data Op : Type 0 where
  create : Layout → Op
  drop_at : ℕ → Op

take_at-suc :
    (i : ℕ) (s : Stack) (ss : List Stack) {t : Stack} {rest : List Stack}
    → take_at (suc i) (s ∷ ss) ≡ some (t, rest)
    → (r : List Stack) × (take_at i ss ≡ some (t, r)) × (rest ≡ s ∷ r)
unfolding take_at
take_at-suc i s ss e = elim (Option-cases (take_at i ss)) [
  | inl f ↦ cc (rw f at e)
  | inr (r, f) ↦ (r.1, ground arith, ground arith)
]

module _ (closure : Layout) where
  -- The live blocks are those of the stacks, one for each, in order.
  abbrev pub AllOwn : Heap → List Stack → List Block → Type 0
  AllOwn h [] [] = Unit
  AllOwn h [] (b ∷ bs) = ⊥
  AllOwn h (s ∷ ss) [] = ⊥
  AllOwn h (s ∷ ss) (b ∷ bs) = Owns closure h s b × AllOwn h ss bs

  pub record IsSound (p : Pool) : Type 0 where
    pub apart : Disjoint p.heap.blocks
    pub owned : AllOwn p.heap p.stacks p.heap.blocks

  -- A write into a block apart from those of the stacks keeps their ownership.
  pub AllOwn-write :
      (h h' : Heap) (b : Block) (a : ℕ) (ss : List Stack) (bs : List Block)
      → 0 < closure.size
      → b.0 ≤ a
      → a < b.0 + b.1.size
      → ((q : ℕ) → q ≢ a → h'.droppers q ≡ h.droppers q)
      → ApartFrom b bs
      → AllOwn h ss bs
      → AllOwn h' ss bs
  AllOwn-write h h' b a [] [] z lo hi same d o = tt
  AllOwn-write h h' b a [] (c ∷ bs) z lo hi same d o = o
  AllOwn-write h h' b a (s ∷ ss) [] z lo hi same d o = o
  AllOwn-write h h' b a (s ∷ ss) (c ∷ bs) z lo hi same d o = (
    record {
      at_block = o.0.at_block;
      dropper = same (dropper_in s.pointer s.layout) elsewhere ∙ o.0.dropper;
      destructor = o.0.destructor;
      aligned = o.0.aligned;
      room = o.0.room;
    },
    AllOwn-write h h' b a ss bs z lo hi same d.1 o.1,
  )
    where
      elsewhere : dropper_in s.pointer s.layout ≢ a
      elsewhere = omega (arith, dropper_in_block o.0 z, d.0)

  -- What taking the stack at some place out of the pool leaves.
  pub record Removed (h : Heap) (s : Stack) (ss : List Stack) (bs : List Block) : Type 0 where
    pub block : Block
    pub rest : List Block
    pub owns : Owns closure h s block
    pub removed : remove_block block bs ≡ some rest
    pub kept : AllOwn h ss rest
    pub disjoint : Disjoint rest
    pub apart : ApartFrom block rest
    pub weaken : (c : Block) → ApartFrom c bs → ApartFrom c rest × Apart c block

  pub take_at-Removed :
      (h : Heap) (i : ℕ) (ss : List Stack) (bs : List Block) {s : Stack} {rest : List Stack}
      → 0 < closure.size
      → Disjoint bs
      → AllOwn h ss bs
      → take_at i ss ≡ some (s, rest)
      → Removed h s rest bs
  unfolding take_at remove_block
  take_at-Removed h i [] bs z d o e = cc
  take_at-Removed h i (s ∷ ss) [] z d o e = absurd o
  take_at-Removed h zero (s ∷ ss) (b ∷ bs) z d o e =
      subst (λ (r : Stack × List Stack). Removed h r.0 r.1 (b ∷ bs)) (some_inj e)
        (record {
          block = b;
          rest = bs;
          owns = o.0;
          removed = rw (block_eqb_refl b) refl;
          kept = o.1;
          disjoint = d.1;
          apart = d.0;
          weaken = λ c w. (w.1, w.0);
        })
  take_at-Removed h (suc i) (s ∷ ss) (b ∷ bs) z d o e =
      let (r, f, g) = take_at-suc i s ss e in
      let m : Removed h _ r bs = take_at-Removed h i ss bs z d.1 o.1 f in
      let w : ApartFrom b m.rest × Apart b m.block = m.weaken b d.0 in
      rw g (record {
        block = m.block;
        rest = b ∷ m.rest;
        owns = m.owns;
        removed = rw (pointers_differ b m.block o.0 m.owns w.1, m.removed) refl;
        kept = (o.0, m.kept);
        disjoint = (w.0, m.disjoint);
        apart = (Apart-symm b m.block w.1, m.apart);
        weaken = λ c v. ((v.0, (m.weaken c v.1).0), (m.weaken c v.1).1);
      })
    where
      pointers_differ :
          {s t : Stack} (b c : Block)
          → Owns closure h s b
          → Owns closure h t c
          → Apart b c
          → block_eqb c b ≡ false
      pointers_differ b c u v a = ground (arith, u.room, v.room)
