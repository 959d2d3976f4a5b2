-- ===== src/Disk/Reads.antt =====
-- `read` of the cached backend: the bytes that the cache and the backend below hold together.
use unico.Common.{
  ltb, subst, dec_lt, ℕ, ◌+◌, ◌-◌, ◌%◌, ◌^◌, ◌≤◌, ◌<◌, ◌≡◌, refl, sym, ap, ◌∙◌, true, List, [], ◌∷◌,
  arith,
}
use unico.Disk.Pages.{page_size, PageType}
use unico.Disk.Io.{Io, done, Bytes, paste, Backend}
use unico.Disk.Cached.{for_pages, read, CachedBackend, read_page}
use unico.Disk.Cover.{first, pages, for_pages-visit, span, Covers, visit}
use unico.Disk.Below.{number_of-first, paste_before, paste_inside}
use unico.Disk.View.{Documented, WholePages, view}
use unico.Disk.Rounds.{Round, read_page-Round}

module _ {ImagePath B : Type 0} (b : Backend ImagePath B) (contents : B → ℕ → ℕ) (size pos : B → ℕ)
    (laws : Documented b contents size pos) where
  -- The loop of `read` over the pages from `s₀` to `e`, with the first `n` bytes of the buffer read.
  record Filled (s : CachedBackend B) (buf : Bytes) (n first_byte count : ℕ)
      (result : Io (Bytes × ℕ) × CachedBackend B) : Type 0 where
    buffer : Bytes
    after : CachedBackend B
    returns : result ≡ (done (buffer, n + count), after)
    len_eq : buffer.len ≡ buf.len
    before_eq : (j : ℕ) → j < n → buffer.at j ≡ buf.at j
    at_eq : (j : ℕ) → j < count → buffer.at (n + j) ≡ view contents s (first_byte + j)
    pos_eq : after.my_pos ≡ s.my_pos
    view_eq : (i : ℕ) → view contents after i ≡ view contents s i
    whole : WholePages after

  -- A round, and the loop over the other pages.
  Round-Filled :
      (ps : List PageType) (s : CachedBackend B) (buf : Bytes) (n f e : ℕ) (p : PageType)
      → first p ≡ f
      → f + span p ≤ e
      → n + (e - f) ≤ buf.len
      → (r : Round b contents size pos laws s buf n p)
      → Filled r.after
          (paste buf n r.part)
          (n + span p)
          (f + span p)
          (e - (f + span p))
          (visit (read_page b) ps (paste buf n r.part, n + span p) r.after)
      → Filled s buf n f (e - f) (visit (read_page b) (p ∷ ps) (buf, n) s)
  unfolding visit
  Round-Filled ps s buf n f e p begins ends h r v = record {
    buffer = v.buffer;
    after = v.after;
    returns =
        rw (r.returns, v.returns)
          (ap (λ (k : ℕ). (done (v.buffer, k), v.after)) (omega (arith, ends)));
    len_eq = v.len_eq;
    before_eq = λ j l. v.before_eq j (omega arith) ∙ paste_before buf n j r.part l;
    at_eq = λ j l. elim (dec_lt j (span p)) [
      | yes k ↦
          v.before_eq (n + j) (omega arith)
          ∙ paste_inside buf n j r.part (omega (arith, r.len_eq))
          ∙ r.at_eq j k
          ∙ ap (view contents s) (omega (arith, begins))
      | no k ↦
          ap v.buffer.at (omega arith)
          ∙ v.at_eq (j - span p) (omega arith)
          ∙ r.view_eq (f + span p + (j - span p))
          ∙ ap (view contents s) (omega arith)
    ];
    pos_eq = v.pos_eq ∙ r.pos_eq;
    view_eq = λ i. v.view_eq i ∙ r.view_eq i;
    whole = v.whole;
  }

  visit-Filled :
      (ps : List PageType) (s : CachedBackend B) (buf : Bytes) (n f e : ℕ)
      → Covers f e ps
      → WholePages s
      → f ≤ e
      → n + (e - f) ≤ buf.len
      → e ≤ size s.backend
      → size s.backend % page_size ≡ 0
      → Filled s buf n f (e - f) (visit (read_page b) ps (buf, n) s)
  unfolding visit
  visit-Filled [] s buf n f e c w l h z m = record {
    buffer = buf;
    after = s;
    returns = ap (λ (k : ℕ). (done (buf, k), s)) (omega (arith, c));
    len_eq = refl;
    before_eq = λ j l. refl;
    at_eq = λ j l. absurd (omega (arith, c));
    pos_eq = refl;
    view_eq = λ i. refl;
    whole = w;
  }
  visit-Filled (p ∷ ps) s buf n f e c w l h z m =
      let r : Round b contents size pos laws s buf n p =
        read_page-Round b contents size pos laws s buf n f e p c.0 w (omega (arith, c.0.ends))
          (omega (arith, c.0.ends, c.0.begins, c.0.nonempty, number_of-first p)) in
      Round-Filled ps s buf n f e p c.0.begins c.0.ends h r (
        visit-Filled ps r.after (paste buf n r.part) (n + span p) (f + span p) e c.1 r.whole
          c.0.ends (omega (arith, c.0.ends)) (omega (arith, r.size_eq)) (omega (arith, r.size_eq)))

  -- A `read` that filled the buffer with the bytes of the view from the position on: the position
  -- goes on by its length, and every byte of the view and the pages' sizes stay as they are.
  pub record Read (s : CachedBackend B) (buf : Bytes) (result : Io (Bytes × ℕ) × CachedBackend B)
      : Type 0 where
    pub buffer : Bytes
    pub after : CachedBackend B
    pub returns : result ≡ (done (buffer, buf.len), after)
    pub at_eq : (j : ℕ) → j < buf.len → buffer.at j ≡ view contents s (s.my_pos + j)
    pub pos_eq : after.my_pos ≡ s.my_pos + buf.len
    pub view_eq : (i : ℕ) → view contents after i ≡ view contents s i
    pub whole : WholePages after

  Filled-Read :
      (s : CachedBackend B) (buf : Bytes) (e : ℕ)
      → e ≡ s.my_pos + buf.len
      → e < 2 ^ 64
      → Filled s buf 0 s.my_pos (e - s.my_pos) (
          for_pages
            (read_page b)
            buf.len
            (record { start = s.my_pos; end = s.my_pos + buf.len })
            (buf, 0)
            s)
      → Read s buf (read b buf s)
  unfolding read
  Filled-Read s buf e p l v =
      let n : 0 + (e - s.my_pos) ≡ buf.len = omega arith in
      let small : ltb (s.my_pos + buf.len) (2 ^ 64) ≡ true = ground arith in
      let small' : ltb (v.after.my_pos + buf.len) (2 ^ 64) ≡ true = ground (arith, v.pos_eq) in
      record {
        buffer = v.buffer;
        after = record v.after { my_pos = s.my_pos + buf.len };
        returns = rw (read, small, v.returns, n, v.pos_eq, small) refl;
        at_eq = λ j k. ap v.buffer.at (omega arith) ∙ v.at_eq j (omega arith);
        pos_eq = refl;
        view_eq = v.view_eq;
        whole = v.whole;
      }

  -- `read` into a buffer whose range lies on the disk, where the disk is a whole number of pages and
  -- ends a page before the end of `u64`, succeeds and fills the whole buffer with the bytes of the
  -- view, whatever is cached, and changes no byte of the view.
  pub read-Read :
      (s : CachedBackend B) (buf : Bytes)
      → WholePages s
      → s.my_pos + buf.len ≤ size s.backend
      → size s.backend % page_size ≡ 0
      → size s.backend + page_size ≤ 2 ^ 64
      → Read s buf (read b buf s)
  read-Read s buf w h m l =
      let (q, c) =
        for_pages-visit (read_page b) buf.len s.my_pos (s.my_pos + buf.len) (buf, 0) s (omega arith)
          (omega arith) (omega arith) in
      Filled-Read s buf (s.my_pos + buf.len) refl (omega arith) (
        subst (Filled s buf 0 s.my_pos (s.my_pos + buf.len - s.my_pos)) (sym q) (
          visit-Filled (pages buf.len (record { start = s.my_pos; end = s.my_pos + buf.len })) s buf
            0 s.my_pos (s.my_pos + buf.len) c w (omega arith) (omega arith) h m))
