-- ===== src/Disk/Written.antt =====
-- `write` of the cached backend, where no full page but the last has to come into the cache.
use unico.Common.{
  ltb, subst, dec_lt, inl, ◌⊎◌, ℕ, ◌+◌, ◌-◌, ◌*◌, ◌%◌, ◌^◌, ◌≤◌, ◌<◌, ◌≡◌, ◌≢◌, refl, sym, ap, ◌∙◌,
  true, none, List, [], ◌∷◌, arith,
}
use unico.Disk.Pages.{page_size, PageType, full_page, partial_page}
use unico.Disk.Io.{Io, done, Bytes, Backend, start, ◌>>=◌}
use unico.Disk.Cached.{for_pages, read, write, seek, CachedBackend, lookup, write_page}
use unico.Disk.Cover.{pages, for_pages-visit, first, span, Piece, Covers, visit}
use unico.Disk.Below.{number_of-first}
use unico.Disk.View.{Documented, WholePages, view}
use unico.Disk.Stores.{Ready, Stored, write_page-Stored}
use unico.Disk.Reads.{Read, read-Read}

-- The full pages from `f` on that end before `e` are cached.
abbrev pub FullPagesCached : {B : Type 0} → CachedBackend B → ℕ → ℕ → Type 0
FullPagesCached s f e =
    (k : ℕ) → f ≤ k * page_size → (k + 1) * page_size < e → lookup k s.cache ≢ none

Piece-Ready :
    {B : Type 0} (s : CachedBackend B) (buf : Bytes) (n f e : ℕ) (p : PageType)
    → Piece f e p
    → n + (e - f) ≡ buf.len
    → FullPagesCached s f e
    → Ready s buf n p
Piece-Ready s buf n f e (full_page number) c l h = λ m. elim (dec_lt ((number + 1) * page_size) e) [
  | yes k ↦ absurd (h number (omega (arith, c.begins)) k m)
  | no k ↦ omega (arith, c.begins, c.ends)
]
Piece-Ready s buf n f e (partial_page number offset count) c l h = tt

module _ {ImagePath B : Type 0} (b : Backend ImagePath B) (contents : B → ℕ → ℕ) (size pos : B → ℕ)
    (laws : Documented b contents size pos) where
  -- The loop of `write` over the pages from `f`, with the first `n` bytes of the buffer written.
  record Emptied (s : CachedBackend B) (buf : Bytes) (n f count : ℕ)
      (result : Io ℕ × CachedBackend B) : Type 0 where
    after : CachedBackend B
    returns : result ≡ (done (n + count), after)
    inside : (j : ℕ) → j < count → view contents after (f + j) ≡ buf.at (n + j)
    outside : (i : ℕ) → (i < f) ⊎ (f + count ≤ i) → view contents after i ≡ view contents s i
    pos_eq : after.my_pos ≡ s.my_pos
    whole : WholePages after
    size_eq : size after.backend ≡ size s.backend

  -- A round, and the loop over the other pages.
  Stored-Emptied :
      (ps : List PageType) (s : CachedBackend B) (buf : Bytes) (n f e : ℕ) (p : PageType)
      → first p ≡ f
      → f + span p ≤ e
      → (r : Stored b contents size pos laws s buf n p)
      → Emptied r.after buf
          (n + span p)
          (f + span p)
          (e - (f + span p))
          (visit (write_page b buf) ps (n + span p) r.after)
      → Emptied s buf n f (e - f) (visit (write_page b buf) (p ∷ ps) n s)
  unfolding visit
  Stored-Emptied ps s buf n f e p begins ends r v = record {
    after = v.after;
    returns = rw (r.returns, v.returns) (ap (λ (k : ℕ). (done k, v.after)) (omega (arith, ends)));
    inside = λ j g. elim (dec_lt j (span p)) [
      | yes k ↦
          v.outside (f + j) (inl (omega arith))
          ∙ ap (view contents r.after) (omega (arith, begins))
          ∙ r.inside j k
      | no k ↦
          ap (view contents v.after) (omega arith)
          ∙ v.inside (j - span p) (omega arith)
          ∙ ap buf.at (omega arith)
    ];
    outside = λ i o. v.outside i (omega (arith, o)) ∙ r.outside i (omega (arith, o, begins, ends));
    pos_eq = v.pos_eq ∙ r.pos_eq;
    whole = v.whole;
    size_eq = v.size_eq ∙ r.size_eq;
  }

  visit-Emptied :
      (ps : List PageType) (s : CachedBackend B) (buf : Bytes) (n f e : ℕ)
      → Covers f e ps
      → WholePages s
      → f ≤ e
      → n + (e - f) ≡ buf.len
      → e ≤ size s.backend
      → size s.backend % page_size ≡ 0
      → FullPagesCached s f e
      → Emptied s buf n f (e - f) (visit (write_page b buf) ps n s)
  unfolding visit
  visit-Emptied [] s buf n f e c w l h z m y = record {
    after = s;
    returns = ap (λ (k : ℕ). (done k, s)) (omega (arith, c));
    inside = λ j l. absurd (omega (arith, c));
    outside = λ i o. refl;
    pos_eq = refl;
    whole = w;
    size_eq = refl;
  }
  visit-Emptied (p ∷ ps) s buf n f e c w l h z m y =
      let r : Stored b contents size pos laws s buf n p =
        write_page-Stored b contents size pos laws s buf n f e p c.0 w (omega (arith, c.0.ends))
          (omega (arith, c.0.ends, c.0.begins, c.0.nonempty, number_of-first p))
          (Piece-Ready s buf n f e p c.0 h y) in
      Stored-Emptied ps s buf n f e p c.0.begins c.0.ends r (
        visit-Emptied ps r.after buf (n + span p) (f + span p) e c.1 r.whole c.0.ends
          (omega (arith, c.0.ends)) (omega (arith, r.size_eq)) (omega (arith, r.size_eq))
          (λ k g i. r.cached k (y k (omega arith) i)))

  -- A `write` that put the buffer into the view from the position on: the position goes on by its
  -- length, and every other byte of the view, the disk's size and the pages' sizes stay as they are.
  pub record Written (s : CachedBackend B) (buf : Bytes) (result : Io ℕ × CachedBackend B)
      : Type 0 where
    pub after : CachedBackend B
    pub returns : result ≡ (done buf.len, after)
    pub inside : (j : ℕ) → j < buf.len → view contents after (s.my_pos + j) ≡ buf.at j
    pub outside :
        (i : ℕ)
        → (i < s.my_pos) ⊎ (s.my_pos + buf.len ≤ i)
        → view contents after i ≡ view contents s i
    pub pos_eq : after.my_pos ≡ s.my_pos + buf.len
    pub whole : WholePages after
    pub size_eq : size after.backend ≡ size s.backend

  Emptied-Written :
      (s : CachedBackend B) (buf : Bytes) (e : ℕ)
      → e ≡ s.my_pos + buf.len
      → e < 2 ^ 64
      → Emptied s buf 0 s.my_pos (e - s.my_pos) (
          for_pages
            (write_page b buf)
            buf.len
            (record { start = s.my_pos; end = s.my_pos + buf.len })
            0
            s)
      → Written s buf (write b buf s)
  unfolding write
  Emptied-Written s buf e p l v =
      let n : 0 + (e - s.my_pos) ≡ buf.len = omega arith in
      let small : ltb (s.my_pos + buf.len) (2 ^ 64) ≡ true = ground arith in
      let small' : ltb (v.after.my_pos + buf.len) (2 ^ 64) ≡ true = ground (arith, v.pos_eq) in
      record {
        after = record v.after { my_pos = s.my_pos + buf.len };
        returns = rw (write, small, v.returns, n, v.pos_eq, small) refl;
        inside = λ j k. v.inside j (omega arith) ∙ ap buf.at (omega arith);
        outside = λ i o. v.outside i (omega (arith, o));
        pos_eq = refl;
        whole = v.whole;
        size_eq = v.size_eq;
      }

  -- `write` of a buffer whose range lies on the disk, where the disk is a whole number of pages and
  -- ends a page before the end of `u64`, and the full pages of the range are cached, except perhaps the
  -- last, succeeds: the view has the whole buffer at the position, and is otherwise as it was.
  pub write-Written :
      (s : CachedBackend B) (buf : Bytes)
      → WholePages s
      → s.my_pos + buf.len ≤ size s.backend
      → size s.backend % page_size ≡ 0
      → size s.backend + page_size ≤ 2 ^ 64
      → FullPagesCached s s.my_pos (s.my_pos + buf.len)
      → Written s buf (write b buf s)
  write-Written s buf w h m l y =
      let (q, c) =
        for_pages-visit (write_page b buf) buf.len s.my_pos (s.my_pos + buf.len) 0 s (omega arith)
          (omega arith) (omega arith) in
      Emptied-Written s buf (s.my_pos + buf.len) refl (omega arith) (
        subst (Emptied s buf 0 s.my_pos (s.my_pos + buf.len - s.my_pos)) (sym q) (
          visit-Emptied (pages buf.len (record { start = s.my_pos; end = s.my_pos + buf.len })) s
            buf 0 s.my_pos (s.my_pos + buf.len) c w (omega arith) (omega arith) h m y))

  -- Writes a buffer, goes back, and reads into another.
  abbrev pub write_then_read :
      Bytes → Bytes → ℕ → CachedBackend B → Io (Bytes × ℕ) × CachedBackend B
  write_then_read buf into place = do _ ← write b buf; _ ← seek b (start place); read b into

  -- A reading of the bytes of `buf`.
  pub record ReadBack (buf : Bytes) (result : Io (Bytes × ℕ) × CachedBackend B) : Type 0 where
    pub buffer : Bytes
    pub after : CachedBackend B
    pub returns : result ≡ (done (buffer, buf.len), after)
    pub at_eq : (j : ℕ) → j < buf.len → buffer.at j ≡ buf.at j

  -- What `write` puts onto the disk, under the conditions of its correctness, `read` into a buffer of
  -- the same length gives back after a `seek` to where it was written.
  pub write-read :
      (s : CachedBackend B) (buf into : Bytes)
      → WholePages s
      → s.my_pos + buf.len ≤ size s.backend
      → size s.backend % page_size ≡ 0
      → size s.backend + page_size ≤ 2 ^ 64
      → FullPagesCached s s.my_pos (s.my_pos + buf.len)
      → into.len ≡ buf.len
      → ReadBack buf (write_then_read buf into s.my_pos s)
  unfolding seek
  write-read s buf into w h m l y q =
      let x : Written s buf (write b buf s) = write-Written s buf w h m l y in
      let r : Read b contents size pos laws (record x.after { my_pos = s.my_pos }) into
          (read b into (record x.after { my_pos = s.my_pos })) =
        read-Read b contents size pos laws (record x.after { my_pos = s.my_pos }) into x.whole
          (omega (arith, x.size_eq)) (omega (arith, x.size_eq)) (omega (arith, x.size_eq)) in
      record {
        buffer = r.buffer;
        after = r.after;
        returns = rw (x.returns, seek, r.returns, q) refl;
        at_eq = λ j k. r.at_eq j (omega arith) ∙ x.inside j k;
      }
