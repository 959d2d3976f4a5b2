-- ===== src/Disk/View.antt =====
-- The bytes that the cached backend stands for: those of its cached pages, and elsewhere those of the
-- backend below, whose documented behaviour is a record of laws.
use unico.Common.{
  ℕ, ◌+◌, ◌*◌, ◌/◌, ◌%◌, ◌≤◌, ◌<◌, ◌≡◌, ◌≢◌, refl, sym, ap, ◌∙◌, inl, inr, ◌⊎◌, true, Bool, Option,
  none, some, arith, Option-cases, ℕ_discrete,
}
use unico.Disk.Pages.{page_size}
use unico.Disk.Io.{done, Bytes, paste, Backend, start}
use unico.Disk.Cached.{CachedBackend, lookup, insert, load}
use unico.Disk.Below.{
  lookup-insert, Same, Exact, Sought, lookup-insert_self, lookup-insert_other, paste_outside,
  paste_inside,
}

-- The documented behaviour of the backend below, which has `contents`, a size and a position.
pub record Documented {ImagePath B : Type 0} (b : Backend ImagePath B) (contents : B → ℕ → ℕ)
    (size pos : B → ℕ) : Type 0 where
  pub seek_law : (p : ℕ) (s : B) → Sought contents size pos p s (b.seek (start p) s)
  pub read_law :
      (n : ℕ) (s : B) → pos s + n ≤ size s → Exact contents size pos n s (b.read_exact n s)
  pub position_law : (s : B) → Sought contents size pos (pos s) s (b.stream_position s)

pub Same-trans :
    {B : Type 0} {contents : B → ℕ → ℕ} {size : B → ℕ} {s t u : B}
    → Same contents size s t
    → Same contents size t u
    → Same contents size s u
Same-trans p q = record {
  size_eq = q.size_eq ∙ p.size_eq;
  contents_eq = λ i. q.contents_eq i ∙ p.contents_eq i;
}

-- Every cached page has its full size.
abbrev pub WholePages : {B : Type 0} → CachedBackend B → Type 0
WholePages s = (k : ℕ) (c : Bytes) → lookup k s.cache ≡ some c → c.len ≡ page_size

module _ {B : Type 0} (contents : B → ℕ → ℕ) where
  -- The byte at a place of the disk, as the cached backend has it.
  abbrev pub view : CachedBackend B → ℕ → ℕ
  view s i = elim (lookup (i / page_size) s.cache) [
    | none ↦ contents s.backend i
    | some c ↦ c.at (i % page_size)
  ]

  pub view_cached :
      (s : CachedBackend B) (i k : ℕ) {c : Bytes}
      → i / page_size ≡ k
      → lookup k s.cache ≡ some c
      → view s i ≡ c.at (i % page_size)
  view_cached s i k q e =
      ap
        (λ (o : Option Bytes). elim o [
          | none ↦ contents s.backend i
          | some c ↦ c.at (i % page_size)
        ])
        (ap (λ (k : ℕ). lookup k s.cache) q ∙ e)

  pub view_missing :
      (s : CachedBackend B) (i k : ℕ)
      → i / page_size ≡ k
      → lookup k s.cache ≡ none
      → view s i ≡ contents s.backend i
  view_missing s i k q e =
      ap
        (λ (o : Option Bytes). elim o [
          | none ↦ contents s.backend i
          | some c ↦ c.at (i % page_size)
        ])
        (ap (λ (k : ℕ). lookup k s.cache) q ∙ e)

  -- The state when the backend below is at `t`, with the page `number` put into the cache.
  abbrev pub kept : CachedBackend B → ℕ → B → Bytes → Bool → CachedBackend B
  kept s number t page is_dirty = record s {
    backend = t;
    cache = insert number page s.cache;
    dirty = insert number is_dirty s.dirty;
  }

  pub kept-WholePages :
      (s : CachedBackend B) (number : ℕ) (t : B) (page : Bytes) (is_dirty : Bool)
      → page.len ≡ page_size
      → WholePages s
      → WholePages (kept s number t page is_dirty)
  kept-WholePages s number t page is_dirty l w k c e = elim (ℕ_discrete k number) [
    | yes q ↦ ground (arith, l, rw (lookup-insert k number page s.cache) at e)
    | no q ↦ ground (arith, w k c, rw (lookup-insert k number page s.cache) at e)
  ]

  module _ (size : B → ℕ) (s : CachedBackend B) (number : ℕ) (t : B) (page : Bytes)
      (is_dirty : Bool) (same : Same contents size s.backend t) where
    -- The bytes of the other pages are those of before.
    pub kept-view_other :
        (i : ℕ) → i / page_size ≢ number → view (kept s number t page is_dirty) i ≡ view s i
    kept-view_other i q =
        let o : lookup (i / page_size) (insert number page s.cache)
            ≡ lookup (i / page_size) s.cache =
          lookup-insert_other (i / page_size) number page s.cache q in
        elim (Option-cases (lookup (i / page_size) s.cache)) [
          | inl m ↦
              view_missing (kept s number t page is_dirty) i (i / page_size) refl (o ∙ m)
              ∙ same.contents_eq i
              ∙ sym (view_missing s i (i / page_size) refl m)
          | inr (c, m) ↦
              view_cached (kept s number t page is_dirty) i (i / page_size) refl (o ∙ m)
              ∙ sym (view_cached s i (i / page_size) refl m)
        ]

    -- A page that agrees with the view keeps every byte.
    pub kept-view :
        ((i : ℕ) → i < page_size → page.at i ≡ view s (number * page_size + i))
        → (i : ℕ) → view (kept s number t page is_dirty) i ≡ view s i
    kept-view h i = elim (ℕ_discrete (i / page_size) number) [
      | yes q ↦
          view_cached (kept s number t page is_dirty) i number q
            (lookup-insert_self number page s.cache)
          ∙ h (i % page_size) (omega arith)
          ∙ ap (view s) (omega arith)
      | no q ↦ kept-view_other i q
    ]

  module _ (size : B → ℕ) (s : CachedBackend B) (number offset : ℕ) (t : B) (c part : Bytes)
      (same : Same contents size s.backend t) (fits : offset + part.len ≤ page_size) where
    -- The bytes of a part that was pasted into a page are the part's.
    pub pasted-view_inside :
        (j : ℕ)
        → j < part.len
        → view (kept s number t (paste c offset part) true) (number * page_size + offset + j)
          ≡ part.at j
    pasted-view_inside j l =
        view_cached (kept s number t (paste c offset part) true) (number * page_size + offset + j)
          number (omega arith) (lookup-insert_self number (paste c offset part) s.cache)
        ∙ ap (paste c offset part).at (omega arith)
        ∙ paste_inside c offset j part l

    -- The other bytes are those of before, if the page's rest agrees with the view.
    pub pasted-view_outside :
        ((i : ℕ)
          → i < page_size
          → (i < offset) ⊎ (offset + part.len ≤ i)
          → c.at i ≡ view s (number * page_size + i))
        → (i : ℕ) → (i < number * page_size + offset) ⊎ (number * page_size + offset + part.len ≤ i)
        → view (kept s number t (paste c offset part) true) i ≡ view s i
    pasted-view_outside h i o = elim (ℕ_discrete (i / page_size) number) [
      | yes q ↦
          let p : (i % page_size < offset) ⊎ (offset + part.len ≤ i % page_size) =
            omega (arith, o) in
          view_cached (kept s number t (paste c offset part) true) i number q
            (lookup-insert_self number (paste c offset part) s.cache)
          ∙ paste_outside c offset (i % page_size) part p
          ∙ h (i % page_size) (omega arith) p
          ∙ ap (view s) (omega arith)
      | no q ↦ kept-view_other size s number t (paste c offset part) true same i q
    ]

module _ {ImagePath B : Type 0} (b : Backend ImagePath B) (contents : B → ℕ → ℕ) (size pos : B → ℕ)
    (laws : Documented b contents size pos) where
  -- A page, as the backend below has it.
  pub record Loaded (number : ℕ) (s : CachedBackend B) : Type 0 where
    pub bytes : Bytes
    pub after : B
    pub loads : load b number s ≡ (done bytes, record s { backend = after })
    pub len_eq : bytes.len ≡ page_size
    pub at_eq : (i : ℕ) → i < page_size → bytes.at i ≡ contents s.backend (number * page_size + i)
    pub same : Same contents size s.backend after

  pub load-Loaded :
      (number : ℕ) (s : CachedBackend B)
      → (number + 1) * page_size ≤ size s.backend
      → Loaded number s
  unfolding load
  load-Loaded number s h =
      let k : Sought contents size pos (number * page_size) s.backend
          (b.seek (start (number * page_size)) s.backend) =
        laws.seek_law (number * page_size) s.backend in
      let x : Exact contents size pos page_size k.after (b.read_exact page_size k.after) =
        laws.read_law page_size k.after (omega (arith, k.pos_eq, k.same.size_eq)) in
      record {
        bytes = x.bytes;
        after = x.after;
        loads = rw (load, k.returns, x.returns) refl;
        len_eq = x.len_eq;
        at_eq = λ i l.
            x.at_eq i l
            ∙ k.same.contents_eq (pos k.after + i)
            ∙ ap (λ (p : ℕ). contents s.backend (p + i)) k.pos_eq;
        same = Same-trans k.same x.same;
      }

  -- A loaded page agrees with the view, where it is not cached.
  pub Loaded-view :
      (number : ℕ) (s : CachedBackend B) (x : Loaded number s)
      → lookup number s.cache ≡ none
      → (i : ℕ) → i < page_size
      → x.bytes.at i ≡ view contents s (number * page_size + i)
  Loaded-view number s x e i l =
      x.at_eq i l ∙ sym (view_missing contents s (number * page_size + i) number (omega arith) e)
