-- ===== src/Disk/WriteUpheld.antt =====
-- One round of `write` of the cached backend keeps its invariant.
use unico.Common.{subst, ℕ, ◌+◌, ◌≡◌, refl, inl, inr, Option-cases, true}
use unico.Disk.Pages.{page_size, PageType, full_page, partial_page}
use unico.Disk.Io.{
  ◌>>=◌, ◌>>◌, ◌>>◌, done, Op, pure, and_then, Bytes, slice, slice_from, copy_from_slice, Backend,
  start,
}
use unico.Disk.Cached.{CachedBackend, lookup, below, insert_page, load, write_page, zeroed}
use unico.Disk.Invariant.{
  IsWellFormed, Post, Post-and_then, Anything, HasLen, slice-Post, slice_from-Post, copy-Post,
}
use unico.Disk.Upheld.{below-Post, load-Post, insert_page-Post}

module _ {ImagePath B : Type 0} (b : Backend ImagePath B)
    (exact : (n : ℕ) (s : B) (x : Bytes) → (b.read_exact n s).0 ≡ done x → x.len ≡ n) where
  -- The new content of a page, and its place in the cache.
  stored-Post :
      (m : Op (CachedBackend B) Bytes) (number count : ℕ) (s : CachedBackend B)
      → Post (HasLen page_size) (m s)
      → Post Anything (and_then (m s) (λ content. insert_page b number content true >> pure count))
  stored-Post m number count s h =
      Post-and_then (HasLen page_size) Anything (m s)
        (λ content. insert_page b number content true >> pure count) h
        (λ content t q v. insert_page-Post b exact number content true count t q v)

  pasted-Post :
      (dst : Bytes) (first count : ℕ) (src : Op (CachedBackend B) Bytes) (s : CachedBackend B)
      → dst.len ≡ page_size
      → Post Anything (src s)
      → Post (HasLen page_size) (and_then (src s) (λ part. copy_from_slice dst first count part))
  pasted-Post dst first count src s l h =
      Post-and_then Anything (HasLen page_size) (src s)
        (λ part. copy_from_slice dst first count part) h
        (λ part t q v.
          subst (λ (n : ℕ). Post (HasLen n) (copy_from_slice dst first count part t)) l
            (copy-Post dst first count part t v))

  pub write_page-Post :
      (buf : Bytes) (n : ℕ) (p : PageType) (s : CachedBackend B)
      → IsWellFormed s
      → Post Anything (write_page b buf n p s)
  unfolding write_page
  write_page-Post buf n (full_page number) s w = elim (Option-cases (lookup number s.cache)) [
    | inr (c, e) ↦
        rw (write_page, e)
          (stored-Post (slice buf n page_size >>= λ part. copy_from_slice c 0 page_size part) number
            (n + page_size) s
            (pasted-Post c 0 page_size (slice buf n page_size) s (w.whole number c e)
              (slice-Post buf n page_size s w)))
    | inl e ↦
        rw (write_page, e)
          (stored-Post (slice_from buf n >>= λ part. copy_from_slice zeroed 0 page_size part) number
            (n + page_size) s
            (pasted-Post zeroed 0 page_size (slice_from buf n) s refl (slice_from-Post buf n s w)))
  ]
  write_page-Post buf n (partial_page number offset count) s w =
      elim (Option-cases (lookup number s.cache)) [
        | inr (c, e) ↦
            rw (write_page, e)
              (stored-Post (slice buf n count >>= λ part. copy_from_slice c offset count part)
                number (n + count) s
                (pasted-Post c offset count (slice buf n count) s (w.whole number c e)
                  (slice-Post buf n count s w)))
        | inl e ↦
            rw (write_page, e)
              (stored-Post
                (below b b.stream_position >>= λ origin_pos. load b number >>= λ cache.
                  below b (b.seek (start origin_pos)) >>= λ _.
                  slice buf n count >>= λ part. copy_from_slice cache offset count part)
                number (n + count) s
                (Post-and_then Anything (HasLen page_size) (below b b.stream_position s)
                  (λ origin_pos. load b number >>= λ cache.
                    below b (b.seek (start origin_pos)) >>= λ _.
                    slice buf n count >>= λ part. copy_from_slice cache offset count part)
                  (below-Post b exact Anything b.stream_position s (λ a e. tt) w)
                  (λ origin_pos t q v.
                    Post-and_then (HasLen page_size) (HasLen page_size) (load b number t)
                      (λ cache. below b (b.seek (start origin_pos)) >>= λ _.
                        slice buf n count >>= λ part. copy_from_slice cache offset count part)
                      (load-Post b exact number t v)
                      (λ c u l y.
                        Post-and_then Anything (HasLen page_size)
                          (below b (b.seek (start origin_pos)) u)
                          (λ _. slice buf n count >>= λ part. copy_from_slice c offset count part)
                          (below-Post b exact Anything (b.seek (start origin_pos)) u (λ a e. tt) y)
                          (λ a x o z.
                            pasted-Post c offset count (slice buf n count) x l
                              (slice-Post buf n count x z))))))
      ]
