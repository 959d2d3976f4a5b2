-- ===== src/Disk/Invariant.antt =====
-- An invariant of the cached backend that each of its operations keeps, however the backend below
-- answers and whether the operation succeeds, fails or panics.
use unico.Common.{
  ℕ, ◌+◌, ◌^◌, ◌<◌, ◌≡◌, refl, ap, ◌∙◌, sym, Bool, true, false, Option, none, some, arith, inl, inr,
  Bool-cases, ltb, leb, if◌then◌else◌, ◌==◌, ◌&&◌, ℕ_discrete,
}
use unico.Disk.Pages.{page_size}
use unico.Disk.Io.{
  Io, done, error, panicked, Op, and_then, Bytes, slice, slice_from, copy_from_slice, Backend,
}
use unico.Disk.Cached.{CachedBackend, lookup, insert, add_u64}
use unico.Disk.Below.{lookup-insert}
use unico.Disk.View.{WholePages}

abbrev pub is_some : {V : Type 0} → Option V → Bool
is_some none = false
is_some (some v) = true

abbrev pub Anything : {A : Type 0} → A → Type 0
Anything a = Unit {0}

abbrev pub HasLen : ℕ → Bytes → Type 0
HasLen n x = x.len ≡ n

-- Every cached page has its full size, the pages that have a dirty flag are the cached ones, and the
-- position is a `u64`.
pub record IsWellFormed {B : Type 0} (s : CachedBackend B) : Type 0 where
  pub whole : WholePages s
  pub flagged : (k : ℕ) → is_some (lookup k s.dirty) ≡ is_some (lookup k s.cache)
  pub pos_fits : s.my_pos < 2 ^ 64

module _ {B : Type 0} where
  -- The state is well formed, and a value has the property `q`.
  abbrev pub Post : {A : Type 0} → (A → Type 0) → Io A × CachedBackend B → Type 0
  Post q (done a, t) = IsWellFormed t × q a
  Post q (error e, t) = IsWellFormed t
  Post q (panicked, t) = IsWellFormed t

  pub Post-of :
      {A : Type 0} (q : A → Type 0) (r : Io A) (t : CachedBackend B)
      → IsWellFormed t
      → ((a : A) → r ≡ done a → q a)
      → Post q (r, t)
  Post-of q (done a) t w h = (w, h a refl)
  Post-of q (error e) t w h = w
  Post-of q panicked t w h = w

  pub Post-and_then :
      {A C : Type 0} (q : A → Type 0) (p : C → Type 0) (x : Io A × CachedBackend B)
      (f : A → Op (CachedBackend B) C)
      → Post q x
      → ((a : A) (t : CachedBackend B) → q a → IsWellFormed t → Post p (f a t))
      → Post p (and_then x f)
  Post-and_then q p (done a, t) f w h = h a t w.1 w.0
  Post-and_then q p (error e, t) f w h = w
  Post-and_then q p (panicked, t) f w h = w

  pub slice-Post :
      (src : Bytes) (first n : ℕ) (s : CachedBackend B)
      → IsWellFormed s
      → Post Anything (slice src first n s)
  slice-Post src first n s w = elim (Bool-cases (leb (first + n) src.len)) [
    | inl e ↦ rw e (w, tt)
    | inr e ↦ rw e w
  ]

  pub slice_from-Post :
      (src : Bytes) (first : ℕ) (s : CachedBackend B)
      → IsWellFormed s
      → Post Anything (slice_from src first s)
  slice_from-Post src first s w = elim (Bool-cases (leb first src.len)) [
    | inl e ↦ rw e (w, tt)
    | inr e ↦ rw e w
  ]

  -- A copy keeps the length of what it is copied into.
  pub copy-Post :
      (dst : Bytes) (first n : ℕ) (src : Bytes) (s : CachedBackend B)
      → IsWellFormed s
      → Post (HasLen dst.len) (copy_from_slice dst first n src s)
  copy-Post dst first n src s w = elim (Bool-cases (leb (first + n) dst.len && src.len == n)) [
    | inl e ↦ rw e (w, refl)
    | inr e ↦ rw e w
  ]

  pub add_u64-Post :
      {ImagePath : Type 0} (b : Backend ImagePath B) (x y : ℕ) (s : CachedBackend B)
      → IsWellFormed s
      → Post (λ (z : ℕ). z < 2 ^ 64) (add_u64 b x y s)
  add_u64-Post b x y s w = elim (Bool-cases (ltb (x + y) (2 ^ 64))) [
    | inl e ↦ rw e (w, ground (arith, e))
    | inr e ↦ rw e w
  ]

  pub insert-IsWellFormed :
      (s : CachedBackend B) (number : ℕ) (content : Bytes) (is_dirty : Bool)
      → content.len ≡ page_size
      → IsWellFormed s
      → IsWellFormed (record s {
        cache = insert number content s.cache;
        dirty = insert number is_dirty s.dirty;
      })
  insert-IsWellFormed s number content is_dirty l w = record {
    whole = λ k c e. elim (ℕ_discrete k number) [
      | yes q ↦ ground (arith, l, rw (lookup-insert k number content s.cache) at e)
      | no q ↦ ground (arith, w.whole k c, rw (lookup-insert k number content s.cache) at e)
    ];
    flagged = λ k. elim (Bool-cases (k == number)) [
      | inl e ↦ ground (
        arith,
        e,
        lookup-insert k number content s.cache,
        lookup-insert k number is_dirty s.dirty,
      )
      | inr e ↦
          ap is_some (
            lookup-insert k number is_dirty s.dirty
            ∙ ap (λ (c : Bool). if c then some is_dirty else lookup k s.dirty) e)
          ∙ w.flagged k
          ∙ sym (
              ap is_some (
                lookup-insert k number content s.cache
                ∙ ap (λ (c : Bool). if c then some content else lookup k s.cache) e))
    ];
    pos_fits = w.pos_fits;
  }
