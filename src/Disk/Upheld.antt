-- ===== src/Disk/Upheld.antt =====
-- One round of `read` of the cached backend keeps its invariant.
use unico.Common.{◌⊎◌, ◌*◌, ℕ, zero, suc, ◌+◌, ◌≡◌, refl, inl, inr, Option-cases, false, Bool}
use unico.Disk.Pages.{
  page_size, PageType, full_page, partial_page, PageRange, Next, finished, page, overflowed, next,
}
use unico.Disk.Io.{
  ◌>>=◌, ◌>>◌, ◌>>◌, Io, done, error, panicked, Op, pure, and_then, Bytes, slice, copy_from_slice,
  Backend, start,
}
use unico.Disk.Cached.{CachedBackend, lookup, below, insert_page, load, read_page, for_pages}
use unico.Disk.Invariant.{
  IsWellFormed, Post, Post-of, Post-and_then, Anything, HasLen, slice-Post, copy-Post,
  insert-IsWellFormed,
}

-- What the iterator comes to.
next-cases :
    (x : Next)
    → (x ≡ finished) ⊎ (x ≡ overflowed) ⊎ ((t : PageType) × (r : PageRange) × (x ≡ page t r))
next-cases finished = inl refl
next-cases (page t r) = inr (inr (t, r, refl))
next-cases overflowed = inr (inl refl)

pub for_pages-Post :
    {A B : Type 0} (q : A → Type 0) (f : A → PageType → Op (CachedBackend B) A)
    → ((a : A) (p : PageType) (s : CachedBackend B) → q a → IsWellFormed s → Post q (f a p s))
    → (n : ℕ) (r : PageRange) (a : A) (s : CachedBackend B) → q a
    → IsWellFormed s
    → Post q (for_pages f n r a s)
unfolding for_pages
for_pages-Post q f h zero r a s p w = (w, p)
for_pages-Post q f h (suc n) r a s p w = elim (next-cases (next r)) [
  | inl e ↦ rw (for_pages, e) (w, p)
  | inr (inl e) ↦ rw (for_pages, e) w
  | inr (inr (t, r', e)) ↦
      rw (for_pages, e)
        (Post-and_then q q (f a t s) (λ b. for_pages f n r' b) (h a t s p w)
          (λ b s' o v. for_pages-Post q f h n r' b s' o v))
]

module _ {ImagePath B : Type 0} (b : Backend ImagePath B)
    (exact : (n : ℕ) (s : B) (x : Bytes) → (b.read_exact n s).0 ≡ done x → x.len ≡ n) where
  pub Anything-Post :
      {A : Type 0} (q : A → Type 0) (x : Io A × CachedBackend B) → Post q x → Post Anything x
  Anything-Post q (done a, t) w = (w.0, tt)
  Anything-Post q (error e, t) w = w
  Anything-Post q (panicked, t) w = w

  pub below-Post :
      {A : Type 0} (q : A → Type 0) (m : Op B A) (s : CachedBackend B)
      → ((a : A) → (m s.backend).0 ≡ done a → q a)
      → IsWellFormed s
      → Post q (below b m s)
  below-Post q m s h w =
      Post-of q (m s.backend).0 (record s { backend = (m s.backend).1 })
        (record { whole = w.whole; flagged = w.flagged; pos_fits = w.pos_fits }) h

  pub load-Post :
      (number : ℕ) (s : CachedBackend B)
      → IsWellFormed s
      → Post (HasLen page_size) (load b number s)
  unfolding load
  load-Post number s w =
      Post-and_then Anything (HasLen page_size) (below b (b.seek (start (number * page_size))) s)
        (λ _. below b (b.read_exact page_size))
        (below-Post Anything (b.seek (start (number * page_size))) s (λ a e. tt) w)
        (λ a t q v.
          below-Post (HasLen page_size) (b.read_exact page_size) t
            (λ x e. exact page_size t.backend x e) v)

  -- The page is put into the cache, and then comes `a`.
  pub insert_page-Post :
      {A : Type 0} (number : ℕ) (content : Bytes) (is_dirty : Bool) (a : A) (s : CachedBackend B)
      → content.len ≡ page_size
      → IsWellFormed s
      → Post Anything (and_then (insert_page b number content is_dirty s) (λ _. pure a))
  unfolding insert_page
  insert_page-Post number content is_dirty a s l w =
      (insert-IsWellFormed s number content is_dirty l w, tt)

  -- A page of the full size that was copied from, and is put into the cache.
  abbrev copy_then_insert : Bytes → ℕ → ℕ → ℕ → Bytes → Bytes → Op (CachedBackend B) Bytes
  copy_then_insert buf n count number cache part = do
    buf' ← copy_from_slice buf n count part
    insert_page b number cache false
    pure buf'

  copy_then_insert-Post :
      (buf : Bytes) (n count number : ℕ) (cache part : Bytes) (s : CachedBackend B)
      → cache.len ≡ page_size
      → IsWellFormed s
      → Post Anything (copy_then_insert buf n count number cache part s)
  copy_then_insert-Post buf n count number cache part s l w =
      Post-and_then (HasLen buf.len) Anything (copy_from_slice buf n count part s)
        (λ buf'. insert_page b number cache false >> pure buf') (copy-Post buf n count part s w)
        (λ buf' t q v. insert_page-Post number cache false buf' t l v)

  pub read_page-Post :
      (x : Bytes × ℕ) (p : PageType) (s : CachedBackend B)
      → IsWellFormed s
      → Post Anything (read_page b x p s)
  unfolding read_page
  read_page-Post (buf, n) (full_page number) s w = elim (Option-cases (lookup number s.cache)) [
    | inr (c, e) ↦
        rw (read_page, e)
          (Post-and_then (HasLen buf.len) Anything (copy_from_slice buf n page_size c s)
            (λ x. pure (x, n + page_size)) (copy-Post buf n page_size c s w) (λ a t q v. (v, tt)))
    | inl e ↦
        rw (read_page, e)
          (Post-and_then Anything Anything
            ((load b number >>= λ cache. copy_then_insert buf n page_size number cache cache) s)
            (λ x. pure (x, n + page_size))
            (Post-and_then (HasLen page_size) Anything (load b number s)
              (λ cache. copy_then_insert buf n page_size number cache cache) (load-Post number s w)
              (λ c t q v. copy_then_insert-Post buf n page_size number c c t q v))
            (λ a t q v. (v, tt)))
  ]
  read_page-Post (buf, n) (partial_page number offset count) s w =
      elim (Option-cases (lookup number s.cache)) [
        | inr (c, e) ↦
            rw (read_page, e)
              (Post-and_then Anything Anything
                ((slice c offset count >>= λ part. copy_from_slice buf n count part) s)
                (λ x. pure (x, n + count))
                (Post-and_then Anything Anything (slice c offset count s)
                  (λ part. copy_from_slice buf n count part) (slice-Post c offset count s w)
                  (λ part t q v.
                    Anything-Post (HasLen buf.len) (copy_from_slice buf n count part t)
                      (copy-Post buf n count part t v)))
                (λ a t q v. (v, tt)))
        | inl e ↦
            rw (read_page, e)
              (Post-and_then Anything Anything
                ((load b number >>= λ cache. slice cache offset count >>= λ part.
                    copy_then_insert buf n count number cache part)
                  s)
                (λ x. pure (x, n + count))
                (Post-and_then (HasLen page_size) Anything (load b number s)
                  (λ cache. slice cache offset count >>= λ part.
                    copy_then_insert buf n count number cache part)
                  (load-Post number s w)
                  (λ c t q v.
                    Post-and_then Anything Anything (slice c offset count t)
                      (λ part. copy_then_insert buf n count number c part)
                      (slice-Post c offset count t v)
                      (λ part u o y. copy_then_insert-Post buf n count number c part u q y)))
                (λ a t q v. (v, tt)))
      ]
