-- ===== src/Disk/Writes.antt =====
-- `write` of the cached backend where a whole page is neither cached nor the last of the buffer.
use unico.Common.{ℕ, zero, suc, ◌+◌, ◌/◌, ◌%◌, ◌^◌, ◌≤◌, ◌<◌, ◌≡◌, refl, true, none, arith, ltb}
use unico.Disk.Pages.{page_size, full_page, page, next, next_page}
use unico.Disk.Io.{panicked, Bytes, Backend}
use unico.Disk.Cached.{CachedBackend, lookup, for_pages, write_page, write}

module _ {ImagePath B : Type 0} (b : Backend ImagePath B) (s : CachedBackend B) (buf : Bytes)
    (starts : s.my_pos % page_size ≡ 0) (longer : page_size < buf.len)
    (missing : lookup (s.my_pos / page_size) s.cache ≡ none)
    (small : s.my_pos + buf.len + page_size ≤ 2 ^ 64) where
  first_page :
      next (record { start = s.my_pos; end = s.my_pos + buf.len })
      ≡ page
          (full_page (s.my_pos / page_size))
          (record { start = next_page s.my_pos; end = s.my_pos + buf.len })
  unfolding next next_page
  first_page = ground arith

  write_page-panics : write_page b buf 0 (full_page (s.my_pos / page_size)) s ≡ (panicked, s)
  unfolding write_page
  write_page-panics = rw (write_page, missing) (ground arith)

  for_pages-panics :
      (n : ℕ)
      → 0 < n
      → for_pages (write_page b buf) n (record { start = s.my_pos; end = s.my_pos + buf.len }) 0 s
        ≡ (panicked, s)
  unfolding for_pages
  for_pages-panics zero h = absurd (omega arith)
  for_pages-panics (suc n) h = rw (for_pages, first_page, write_page-panics) refl

  -- A write of more than one page from the beginning of a page that is not cached panics, and leaves
  -- the backend as it is.
  pub write-panics : write b buf s ≡ (panicked, s)
  unfolding write
  write-panics =
      let e : ltb (s.my_pos + buf.len) (2 ^ 64) ≡ true = ground arith in
      rw (write, e, for_pages-panics buf.len (omega arith)) refl
