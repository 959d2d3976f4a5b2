-- ===== src/Disk/Stores.antt =====
-- One round of `write` of the cached backend: a part of the buffer goes into a cached page.
use unico.Common.{
  ℕ, ◌+◌, ◌-◌, ◌*◌, ◌≤◌, ◌<◌, ◌≡◌, ◌≢◌, refl, sym, ap, ◌∙◌, ◌⊎◌, inl, inr, true, none, some, arith,
  Option-cases,
}
use unico.Disk.Pages.{page_size, PageType, full_page, partial_page}
use unico.Disk.Io.{done, Bytes, paste, slice_from, Backend, start}
use unico.Disk.Cached.{CachedBackend, lookup, insert, insert_page, write_page, zeroed}
use unico.Disk.Cover.{first, span, number_of, Piece}
use unico.Disk.Below.{lookup-insert, Same, Sought, copy_fits, slice_fits}
use unico.Disk.View.{
  Documented, WholePages, view, view_cached, kept, kept-WholePages, pasted-view_inside,
  pasted-view_outside, Loaded, view_missing, load-Loaded, Same-trans,
}

slice_from_fits :
    {S : Type 0} (src : Bytes) (first : ℕ) (s : S)
    → first ≤ src.len
    → slice_from src first s
      ≡ (done (record { len = src.len - first; at = λ i. src.at (first + i) }), s)
slice_from_fits src first s h = ground arith

-- A full page is cached, or the last of the buffer.
abbrev pub Ready : {B : Type 0} → CachedBackend B → Bytes → ℕ → PageType → Type 0
Ready s buf n (full_page number) = lookup number s.cache ≡ none → n + page_size ≡ buf.len
Ready s buf n (partial_page number offset count) = Unit {0}

module _ {ImagePath B : Type 0} (b : Backend ImagePath B) (contents : B → ℕ → ℕ) (size pos : B → ℕ)
    (laws : Documented b contents size pos) where
  -- A round of `write` on the page `p`: the bytes of the buffer from `n` on come into the view, and
  -- the others stay.
  pub record Stored (s : CachedBackend B) (buf : Bytes) (n : ℕ) (p : PageType) : Type 0 where
    pub after : CachedBackend B
    pub returns : write_page b buf n p s ≡ (done (n + span p), after)
    pub inside : (j : ℕ) → j < span p → view contents after (first p + j) ≡ buf.at (n + j)
    pub outside :
        (i : ℕ) → (i < first p) ⊎ (first p + span p ≤ i) → view contents after i ≡ view contents s i
    pub pos_eq : after.my_pos ≡ s.my_pos
    pub whole : WholePages after
    pub size_eq : size after.backend ≡ size s.backend
    pub cached : (k : ℕ) → lookup k s.cache ≢ none → lookup k after.cache ≢ none

  insert-cached :
      (s : CachedBackend B) (number k : ℕ) (page : Bytes)
      → lookup k s.cache ≢ none
      → lookup k (insert number page s.cache) ≢ none
  insert-cached s number k page h e =
      ground (arith, h, rw (lookup-insert k number page s.cache) at e)

  -- The page `c`, which agrees with the view outside of the part, with the part pasted into it.
  pasted-Stored :
      (s : CachedBackend B) (buf : Bytes) (n : ℕ) (p : PageType) (number offset : ℕ) (t : B)
      (c part : Bytes)
      → Same contents size s.backend t
      → c.len ≡ page_size
      → offset + part.len ≤ page_size
      → ((i : ℕ)
          → i < page_size
          → (i < offset) ⊎ (offset + part.len ≤ i)
          → c.at i ≡ view contents s (number * page_size + i))
      → part.len ≡ span p
      → number * page_size + offset ≡ first p
      → ((j : ℕ) → j < part.len → part.at j ≡ buf.at (n + j))
      → WholePages s
      → write_page b buf n p s
        ≡ (done (n + span p), kept contents s number t (paste c offset part) true)
      → Stored s buf n p
  pasted-Stored s buf n p number offset t c part same l fits rest k q at_eq w r = record {
    after = kept contents s number t (paste c offset part) true;
    returns = r;
    inside = λ j h.
        ap (view contents (kept contents s number t (paste c offset part) true))
          (ap (λ (x : ℕ). x + j) (sym q))
        ∙ pasted-view_inside contents size s number offset t c part same fits j (omega arith)
        ∙ at_eq j (omega arith);
    outside = λ i h.
        pasted-view_outside contents size s number offset t c part same fits rest i
          (omega (arith, h));
    pos_eq = refl;
    whole = kept-WholePages contents s number t (paste c offset part) true l w;
    size_eq = same.size_eq;
    cached = λ i h. insert-cached s number i (paste c offset part) h;
  }

  -- The part of the buffer for a page.
  abbrev part_of : Bytes → ℕ → ℕ → Bytes
  part_of buf n count = record { len = count; at = λ i. buf.at (n + i) }

  itself : (s : CachedBackend B) → Same contents size s.backend s.backend
  itself s = record { size_eq = refl; contents_eq = λ i. refl }

  -- A cached page agrees with the view.
  cached-view :
      (s : CachedBackend B) (number : ℕ) (c : Bytes)
      → lookup number s.cache ≡ some c
      → (i : ℕ) → i < page_size
      → c.at i ≡ view contents s (number * page_size + i)
  cached-view s number c e i l =
      ap c.at (omega arith)
      ∙ sym (view_cached contents s (number * page_size + i) number (omega arith) e)

  full_page-Stored :
      (s : CachedBackend B) (buf : Bytes) (n number : ℕ)
      → WholePages s
      → n + page_size ≤ buf.len
      → Ready s buf n (full_page number)
      → Stored s buf n (full_page number)
  unfolding write_page insert_page
  full_page-Stored s buf n number w h y = elim (Option-cases (lookup number s.cache)) [
    | inr (c, e) ↦
        pasted-Stored s buf n (full_page number) number 0 s.backend c (part_of buf n page_size)
          (itself s) (w number c e) (omega arith) (λ i l o. cached-view s number c e i l) refl
          (omega arith) (λ j l. refl) w
          (rw
            (
              write_page,
              e,
              slice_fits buf n page_size s h,
              copy_fits c 0 page_size (part_of buf n page_size) s (omega (arith, w number c e))
                  refl,
            )
            refl)
    | inl e ↦
        let q : n + page_size ≡ buf.len = y e in
        let l : buf.len - n ≡ page_size = omega arith in
        pasted-Stored s buf n (full_page number) number 0 s.backend zeroed
          (part_of buf n (buf.len - n)) (itself s) refl (omega arith)
          (λ i k o. absurd (omega (arith, o))) l (omega arith) (λ j l. refl) w
          (rw
            (
              write_page,
              e,
              slice_from_fits buf n s (omega arith),
              copy_fits zeroed 0 page_size (part_of buf n (buf.len - n)) s (omega arith) l,
            )
            refl)
  ]

  partial_page-Stored :
      (s : CachedBackend B) (buf : Bytes) (n number offset count : ℕ)
      → WholePages s
      → n + count ≤ buf.len
      → offset + count ≤ page_size
      → (number + 1) * page_size ≤ size s.backend
      → Stored s buf n (partial_page number offset count)
  unfolding write_page insert_page
  partial_page-Stored s buf n number offset count w h f z =
      elim (Option-cases (lookup number s.cache)) [
        | inr (c, e) ↦
            pasted-Stored s buf n (partial_page number offset count) number offset s.backend c
              (part_of buf n count) (itself s) (w number c e) f
              (λ i l o. cached-view s number c e i l) refl refl (λ j l. refl) w
              (rw
                (
                  write_page,
                  e,
                  slice_fits buf n count s h,
                  copy_fits c offset count (part_of buf n count) s (omega (arith, w number c e))
                      refl,
                )
                refl)
        | inl e ↦
            let q : Sought contents size pos (pos s.backend) s.backend
                (b.stream_position s.backend) =
              laws.position_law s.backend in
            let x : Loaded b contents size pos laws number (record s { backend = q.after }) =
              load-Loaded b contents size pos laws number (record s { backend = q.after })
                (omega (arith, q.same.size_eq)) in
            let k : Sought contents size pos (pos s.backend) x.after
                (b.seek (start (pos s.backend)) x.after) =
              laws.seek_law (pos s.backend) x.after in
            pasted-Stored s buf n (partial_page number offset count) number offset k.after x.bytes
              (part_of buf n count) (Same-trans (Same-trans q.same x.same) k.same) x.len_eq f
              (λ i l o.
                x.at_eq i l
                ∙ q.same.contents_eq (number * page_size + i)
                ∙ sym (view_missing contents s (number * page_size + i) number (omega arith) e))
              refl refl (λ j l. refl) w
              (rw
                (
                  write_page,
                  e,
                  q.returns,
                  x.loads,
                  k.returns,
                  slice_fits buf n count (record s { backend = k.after }) h,
                  copy_fits x.bytes offset count (part_of buf n count)
                      (record s { backend = k.after }) (omega (arith, x.len_eq)) refl,
                )
                refl)
      ]

  pub write_page-Stored :
      (s : CachedBackend B) (buf : Bytes) (n first_byte last : ℕ) (p : PageType)
      → Piece first_byte last p
      → WholePages s
      → n + span p ≤ buf.len
      → (number_of p + 1) * page_size ≤ size s.backend
      → Ready s buf n p
      → Stored s buf n p
  write_page-Stored s buf n f l (full_page number) c w h z y = full_page-Stored s buf n number w h y
  write_page-Stored s buf n f l (partial_page number offset count) c w h z y =
      partial_page-Stored s buf n number offset count w h (omega (arith, c.within, c.begins)) z
