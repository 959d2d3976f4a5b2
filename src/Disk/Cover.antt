-- ===== src/Disk/Cover.antt =====
-- The pages of a range cover it: in order, without gap or overlap, and each within its page.
use unico.Common.{
  ℕ, zero, suc, ◌+◌, ◌-◌, ◌*◌, ◌/◌, ◌%◌, ◌^◌, ◌≤◌, ◌<◌, ◌≡◌, refl, ◌⊎◌, inl, inr, arith, List, [],
  ◌∷◌, dec_le, dec_lt,
}
use unico.Disk.Io.{Io, done, error, panicked, Op, pure, ◌>>=◌, and_then}
use unico.Disk.Cached.{for_pages}
use unico.Disk.Pages.{
  overflowed, page_size, PageType, full_page, partial_page, PageRange, finished, page, overflowed,
  next, next_page,
}

-- The first byte, the number of bytes, and the page's number.
abbrev pub first : PageType → ℕ
first (full_page number) = number * page_size
first (partial_page number offset size) = number * page_size + offset

abbrev pub span : PageType → ℕ
span (full_page number) = page_size
span (partial_page number offset size) = size

abbrev pub number_of : PageType → ℕ
number_of (full_page number) = number
number_of (partial_page number offset size) = number

-- `p` begins at `s`, is not empty, ends by `e`, and lies in one page.
pub record Piece (s e : ℕ) (p : PageType) : Type 0 where
  pub begins : first p ≡ s
  pub nonempty : 0 < span p
  pub ends : s + span p ≤ e
  pub within : s + span p ≤ (number_of p + 1) * page_size
  pub filled : (s + span p ≡ e) ⊎ (s + span p ≡ (number_of p + 1) * page_size)

abbrev pub Covers : ℕ → ℕ → List PageType → Type 0
Covers s e [] = s ≡ e
Covers s e (p ∷ ps) = Piece s e p × Covers (s + span p) e ps

-- A step of the iterator on a range that is not empty.
next-Piece :
    (s e : ℕ)
    → s < e
    → e + page_size ≤ 2 ^ 64
    → (p : PageType) × (next (record { start = s; end = e })
        ≡ page p (record { start = s + span p; end = e }))
      × Piece s e p
unfolding next next_page
next-Piece s e l h = elim (dec_le ((s / page_size + 1) * page_size) e) [
  | yes f ↦ elim (dec_lt 0 (s % page_size)) [
    | yes o ↦ (
      partial_page (s / page_size) (s % page_size) ((s / page_size + 1) * page_size - s),
      ground arith,
      record {
        begins = omega arith;
        nonempty = omega arith;
        ends = omega arith;
        within = omega arith;
        filled = inr (omega arith);
      },
    )
    | no o ↦ (
      full_page (s / page_size),
      ground arith,
      record {
        begins = omega arith;
        nonempty = omega arith;
        ends = omega arith;
        within = omega arith;
        filled = inr (omega arith);
      },
    )
  ]
  | no f ↦ elim (dec_lt 0 (s % page_size)) [
    | yes o ↦ (
      partial_page (s / page_size) (s % page_size) (e - s),
      ground arith,
      record {
        begins = omega arith;
        nonempty = omega arith;
        ends = omega arith;
        within = omega arith;
        filled = inl (omega arith);
      },
    )
    | no o ↦ (
      partial_page (s / page_size) 0 (e - s),
      ground arith,
      record {
        begins = omega arith;
        nonempty = omega arith;
        ends = omega arith;
        within = omega arith;
        filled = inl (omega arith);
      },
    )
  ]
]

-- The pages that a loop over the range visits, in `n` rounds.
unfoldable pub pages : ℕ → PageRange → List PageType
pages zero r = []
pages (suc n) r = elim (next r) [ finished ↦ [] | page p r' ↦ p ∷ pages n r' | overflowed ↦ [] ]

-- A loop over a list of pages.
unfoldable pub visit : {S A : Type 0} → (A → PageType → Op S A) → List PageType → A → Op S A
visit f [] a = pure a
visit f (p ∷ ps) a = do b ← f a p; visit f ps b

next-end : (s e : ℕ) → e ≤ s → next (record { start = s; end = e }) ≡ finished
unfolding next
next-end s e h = ground arith

pages-Covers :
    (n s e : ℕ)
    → s ≤ e
    → e + page_size ≤ 2 ^ 64
    → e ≤ s + n
    → Covers s e (pages n (record { start = s; end = e }))
unfolding pages
pages-Covers zero s e l h m = omega arith
pages-Covers (suc n) s e l h m = elim (dec_lt s e) [
  | no k ↦ rw (next-end s e (omega arith), pages) (omega arith)
  | yes k ↦
      let (p, q, w) = next-Piece s e k h in
      rw (q, pages) (w, pages-Covers n (s + span p) e w.ends h (omega (arith, w.nonempty)))
]

and_then-cong :
    {S A B : Type 0} (x : Io A × S) {g h : A → Op S B}
    → ((a : A) (t : S) → g a t ≡ h a t)
    → and_then x g ≡ and_then x h
and_then-cong (done a, t) e = e a t
and_then-cong (error c, t) e = refl
and_then-cong (panicked, t) e = refl

module _ {S A : Type 0} (f : A → PageType → Op S A) where
  loop-visit :
      (n s e : ℕ) (a : A) (t : S)
      → s ≤ e
      → e + page_size ≤ 2 ^ 64
      → e ≤ s + n
      → for_pages f n (record { start = s; end = e }) a t
        ≡ visit f (pages n (record { start = s; end = e })) a t
  unfolding for_pages pages visit
  loop-visit zero s e a t l h m = refl
  loop-visit (suc n) s e a t l h m = elim (dec_lt s e) [
    | no k ↦ rw (next-end s e (omega arith), pages, for_pages) refl
    | yes k ↦
        let (p, q, w) = next-Piece s e k h in
        rw (q, pages, for_pages)
          (and_then-cong (f a p t)
            (λ b u. loop-visit n (s + span p) e b u w.ends h (omega (arith, w.nonempty))))
  ]

  -- With at least as many rounds as bytes, and for an end at which a page more is at most `2 ^ 64`, the loop
  -- over a range
  -- runs its body on pages that cover the range in order, without gap or overlap, each not empty,
  -- within one page of the disk and as long as it can be; and the iterator does not panic.
  pub for_pages-visit :
      (n s e : ℕ) (a : A) (t : S)
      → s ≤ e
      → e + page_size ≤ 2 ^ 64
      → e ≤ s + n
      → (for_pages f n (record { start = s; end = e }) a t
          ≡ visit f (pages n (record { start = s; end = e })) a t)
        × Covers s e (pages n (record { start = s; end = e }))
  for_pages-visit n s e a t l h m = (loop-visit n s e a t l h m, pages-Covers n s e l h m)
