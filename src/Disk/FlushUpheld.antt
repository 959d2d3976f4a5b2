-- ===== src/Disk/FlushUpheld.antt =====
-- `real_flush` of the cached backend keeps the invariant.
use unico.Common.{
  ℕ, ◌≡◌, ap, sym, ◌∙◌, true, false, List, [], ◌∷◌, arith, inl, inr, Option-cases, Bool-cases, ◌==◌,
}
use unico.Disk.Io.{
  Io, done, error, panicked, Op, pure, and_then, modify, ◌>>=◌, ◌>>◌, get, Bytes, Backend, start,
}
use unico.Disk.Cached.{CachedBackend, lookup, insert, below, flush_pages, real_flush}
use unico.Disk.Below.{lookup-insert}
use unico.Disk.Invariant.{IsWellFormed, is_some, Post, Post-and_then, Anything}
use unico.Disk.Upheld.{below-Post}

module _ {ImagePath B : Type 0} (b : Backend ImagePath B)
    (exact : (n : ℕ) (s : B) (x : Bytes) → (b.read_exact n s).0 ≡ done x → x.len ≡ n) where
  -- A dirty page that was written is clean.
  clean-IsWellFormed :
      (s : CachedBackend B) (k : ℕ)
      → is_some (lookup k s.dirty) ≡ true
      → IsWellFormed s
      → IsWellFormed (record s { dirty = insert k false s.dirty })
  clean-IsWellFormed s k e w = record {
    whole = w.whole;
    flagged = λ i. ap is_some (lookup-insert i k false s.dirty) ∙ elim (Bool-cases (i == k)) [
      | inl q ↦
          let j : i ≡ k = ground (arith, q) in
          rw q (sym (ap (λ (j : ℕ). is_some (lookup j s.dirty)) j ∙ e) ∙ w.flagged i)
      | inr q ↦ rw q (w.flagged i)
    ];
    pos_fits = w.pos_fits;
  }

  -- After a call of the backend below, the rest of the state is as it was.
  below_then-Post :
      {A C : Type 0} (q : C → Type 0) (x : Io A × B) (s : CachedBackend B)
      (f : A → Op (CachedBackend B) C)
      → IsWellFormed s
      → ((a : A) (t : B) → Post q (f a (record s { backend = t })))
      → Post q (and_then (x.0, record s { backend = x.1 }) f)
  below_then-Post q (done a, t) s f w h = h a t
  below_then-Post q (error e, t) s f w h = record {
    whole = w.whole;
    flagged = w.flagged;
    pos_fits = w.pos_fits;
  }
  below_then-Post q (panicked, t) s f w h = record {
    whole = w.whole;
    flagged = w.flagged;
    pos_fits = w.pos_fits;
  }

  -- The write of a dirty page, which is clean afterwards.
  abbrev write_back : ℕ → Bytes → Op (CachedBackend B) (Unit {0})
  write_back k content = do
    _ ← below b (b.seek (start k))
    below b (b.write_all content)
    modify λ t. record t { dirty = insert k false t.dirty }

  write_back-Post :
      (k : ℕ) (content : Bytes) (s : CachedBackend B)
      → is_some (lookup k s.dirty) ≡ true
      → IsWellFormed s
      → Post Anything (write_back k content s)
  write_back-Post k content s e w =
      below_then-Post Anything (b.seek (start k) s.backend) s
        (λ _.
          below b (b.write_all content)
          >> modify (λ t. record t { dirty = insert k false t.dirty }))
        w
        (λ a t.
          below_then-Post Anything (b.write_all content t) (record s { backend = t })
            (λ _. modify (λ t. record t { dirty = insert k false t.dirty }))
            (record { whole = w.whole; flagged = w.flagged; pos_fits = w.pos_fits })
            (λ c u. (
              clean-IsWellFormed (record s { backend = u }) k e
                  (record { whole = w.whole; flagged = w.flagged; pos_fits = w.pos_fits }),
              tt,
            )))

  flush_pages-Post :
      (ps : List (ℕ × Bytes)) (s : CachedBackend B)
      → IsWellFormed s
      → Post Anything (flush_pages b ps s)
  unfolding flush_pages
  flush_pages-Post [] s w = (w, tt)
  flush_pages-Post ((k, content) ∷ ps) s w = elim (Option-cases (lookup k s.dirty)) [
    | inl e ↦ rw (flush_pages, e) (flush_pages-Post ps s w)
    | inr (false, e) ↦ rw (flush_pages, e) (flush_pages-Post ps s w)
    | inr (true, e) ↦
        rw (flush_pages, e)
          (Post-and_then Anything Anything (write_back k content s) (λ _. flush_pages b ps)
            (write_back-Post k content s (ap is_some e) w) (λ a t q v. flush_pages-Post ps t v))
  ]

  pub real_flush-Post : (s : CachedBackend B) → IsWellFormed s → Post Anything (real_flush b s)
  unfolding real_flush
  real_flush-Post s w =
      Post-and_then Anything Anything (below b b.stream_position s)
        (λ p. get >>= λ t.
          flush_pages b t.cache
          >> (below b b.real_flush >> (below b (b.seek (start p)) >>= λ _. pure tt)))
        (below-Post b exact Anything b.stream_position s (λ a e. tt) w)
        (λ p t q v.
          Post-and_then Anything Anything (flush_pages b t.cache t)
            (λ _. below b b.real_flush >> (below b (b.seek (start p)) >>= λ _. pure tt))
            (flush_pages-Post t.cache t v)
            (λ a u o y.
              Post-and_then Anything Anything (below b b.real_flush u)
                (λ _. below b (b.seek (start p)) >>= λ _. pure tt)
                (below-Post b exact Anything b.real_flush u (λ a e. tt) y)
                (λ a x o z.
                  Post-and_then Anything Anything (below b (b.seek (start p)) x) (λ _. pure tt)
                    (below-Post b exact Anything (b.seek (start p)) x (λ a e. tt) z)
                    (λ a c o w. (w, tt)))))
