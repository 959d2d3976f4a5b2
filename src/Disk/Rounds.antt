-- ===== src/Disk/Rounds.antt =====
-- One round of `read` of the cached backend: a page comes from the cache, or from below into the cache.
use unico.Common.{
  inl, inr, ℕ, ◌+◌, ◌*◌, ◌≤◌, ◌<◌, ◌≡◌, refl, sym, ap, ◌∙◌, false, none, some, arith, Option-cases,
}
use unico.Disk.Pages.{page_size, PageType, full_page, partial_page}
use unico.Disk.Io.{done, Bytes, paste, Backend}
use unico.Disk.Cached.{CachedBackend, lookup, insert_page, read_page}
use unico.Disk.Cover.{first, span, number_of, Piece}
use unico.Disk.Below.{copy_fits, slice_fits}
use unico.Disk.View.{
  Documented, WholePages, view, view_cached, kept, kept-WholePages, kept-view, Loaded, load-Loaded,
  Loaded-view,
}

module _ {ImagePath B : Type 0} (b : Backend ImagePath B) (contents : B → ℕ → ℕ) (size pos : B → ℕ)
    (laws : Documented b contents size pos) where
  -- A round of `read` on the page `p`: the bytes of the view come into the buffer from `n` on.
  pub record Round (s : CachedBackend B) (buf : Bytes) (n : ℕ) (p : PageType) : Type 0 where
    pub part : Bytes
    pub after : CachedBackend B
    pub returns : read_page b (buf, n) p s ≡ (done (paste buf n part, n + span p), after)
    pub len_eq : part.len ≡ span p
    pub at_eq : (j : ℕ) → j < span p → part.at j ≡ view contents s (first p + j)
    pub pos_eq : after.my_pos ≡ s.my_pos
    pub view_eq : (i : ℕ) → view contents after i ≡ view contents s i
    pub whole : WholePages after
    pub size_eq : size after.backend ≡ size s.backend

  -- The part of a page that a round copies, from the byte `a` of the disk on.
  cached_part :
      (s : CachedBackend B) (c : Bytes) (number offset size a j o : ℕ)
      → lookup number s.cache ≡ some c
      → a ≡ number * page_size + offset
      → o ≡ offset + j
      → offset + size ≤ page_size
      → j < size
      → c.at o ≡ view contents s (a + j)
  cached_part s c number offset size a j o e f g h l =
      ap c.at (omega arith) ∙ sym (view_cached contents s (a + j) number (omega arith) e)

  missing_part :
      (s : CachedBackend B) (number offset count a j o : ℕ)
      (l : Loaded b contents size pos laws number s)
      → lookup number s.cache ≡ none
      → a ≡ number * page_size + offset
      → o ≡ offset + j
      → offset + count ≤ page_size
      → j < count
      → l.bytes.at o ≡ view contents s (a + j)
  missing_part s number offset count a j o x e f g h l =
      Loaded-view b contents size pos laws number s x e o (omega arith)
      ∙ ap (view contents s) (omega arith)

  pub read_page-Round :
      (s : CachedBackend B) (buf : Bytes) (n first_byte last : ℕ) (p : PageType)
      → Piece first_byte last p
      → WholePages s
      → n + span p ≤ buf.len
      → (number_of p + 1) * page_size ≤ size s.backend
      → Round s buf n p
  unfolding read_page insert_page
  read_page-Round s buf n f l (full_page number) c w h z =
      elim (Option-cases (lookup number s.cache)) [
        | inr (page, e) ↦ record {
          part = page;
          after = s;
          returns = rw (read_page, e, copy_fits buf n page_size page s h (w number page e)) refl;
          len_eq = w number page e;
          at_eq = λ j l.
              cached_part s page number 0 page_size (number * page_size) j j e (omega arith)
                (omega arith) (omega arith) l;
          pos_eq = refl;
          view_eq = λ i. refl;
          whole = w;
          size_eq = refl;
        }
        | inl e ↦
            let x : Loaded b contents size pos laws number s =
              load-Loaded b contents size pos laws number s z in
            record {
              part = x.bytes;
              after = kept contents s number x.after x.bytes false;
              returns =
                  rw
                    (
                      read_page,
                      e,
                      x.loads,
                      copy_fits buf n page_size x.bytes (record s { backend = x.after }) h x.len_eq,
                    )
                    refl;
              len_eq = x.len_eq;
              at_eq = λ j l.
                  missing_part s number 0 page_size (number * page_size) j j x e (omega arith)
                    (omega arith) (omega arith) l;
              pos_eq = refl;
              view_eq =
                  kept-view contents size s number x.after x.bytes false x.same
                    (Loaded-view b contents size pos laws number s x e);
              whole = kept-WholePages contents s number x.after x.bytes false x.len_eq w;
              size_eq = x.same.size_eq;
            }
      ]
  read_page-Round s buf n f l (partial_page number offset count) c w h z =
      elim (Option-cases (lookup number s.cache)) [
        | inr (page, e) ↦ record {
          part = record { len = count; at = λ i. page.at (offset + i) };
          after = s;
          returns =
              rw
                (
                  read_page,
                  e,
                  slice_fits page offset count s
                      (omega (arith, c.within, c.begins, w number page e)),
                  copy_fits buf n count (record { len = count; at = λ i. page.at (offset + i) }) s h
                      refl,
                )
                refl;
          len_eq = refl;
          at_eq = λ j l.
              cached_part s page number offset count (number * page_size + offset) j (offset + j) e
                refl refl (omega (arith, c.within, c.begins)) l;
          pos_eq = refl;
          view_eq = λ i. refl;
          whole = w;
          size_eq = refl;
        }
        | inl e ↦
            let x : Loaded b contents size pos laws number s =
              load-Loaded b contents size pos laws number s z in
            record {
              part = record { len = count; at = λ i. x.bytes.at (offset + i) };
              after = kept contents s number x.after x.bytes false;
              returns =
                  rw
                    (
                      read_page,
                      e,
                      x.loads,
                      slice_fits x.bytes offset count (record s { backend = x.after })
                          (omega (arith, c.within, c.begins, x.len_eq)),
                      copy_fits buf n count
                          (record { len = count; at = λ i. x.bytes.at (offset + i) })
                          (record s { backend = x.after }) h refl,
                    )
                    refl;
              len_eq = refl;
              at_eq = λ j l.
                  missing_part s number offset count (number * page_size + offset) j (offset + j) x
                    e refl refl (omega (arith, c.within, c.begins)) l;
              pos_eq = refl;
              view_eq =
                  kept-view contents size s number x.after x.bytes false x.same
                    (Loaded-view b contents size pos laws number s x e);
              whole = kept-WholePages contents s number x.after x.bytes false x.len_eq w;
              size_eq = x.same.size_eq;
            }
      ]
