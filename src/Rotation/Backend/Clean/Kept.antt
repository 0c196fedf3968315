-- ===== src/Rotation/Backend/Clean/Kept.antt =====
-- What `compress` of src/rotation.rs does to the bytes of a file.
use captains_log.Base.{
  ℕ, ◌≡◌, ◌≢◌, ◌⊎◌, refl, ap, sym, subst, inl, inr, List, [], Option, none, some, true, false,
  Bool-cases, returned, ◌∙◌, if◌then◌else◌,
}
use captains_log.Rotation.Files.{
  Io, ok, err, Platform, Fs, is_some, exists_file, open_call, create_call, copy_call, finish_call,
  remove_call, put, remove_file,
}
use captains_log.Methods.Triples.{Runs, Runs-congr, >>=-Runs, assert-true, ran}
use captains_log.Rotation.Backend.{Scheme, Backend, Method, ◌>>◌, assert, on_fs}
use captains_log.Rotation.Backend.Clean.{
  open_file, create_file, copy_gzip, remove_and_drop, compress,
}

module _ {R P : Type 0} (scheme : Scheme R P) (pf : Platform P) where
  other_path : (p q : P) → p ≢ q → pf.same p q ≡ false
  other_path p q d = elim (Bool-cases (pf.same p q)) [
    | inl e ↦ absurd (d ((pf.same_iff p q).0 e))
    | inr e ↦ e
  ]

  same_path : (p : P) → pf.same p p ≡ true
  same_path p = (pf.same_iff p p).1 refl

  abbrev pub Kept : P → List ℕ → Fs P → Type 0
  Kept path content fs =
      (fs.files path ≡ some content)
      ⊎ ((fs.files path ≡ none) × (fs.files (scheme.gz path) ≡ some (pf.gzip content)))

  removed :
      (path : P) {content : List ℕ} (s : Backend R P)
      → s.fs.files path ≡ some content
      → pf.faulty (remove_call path) ≡ false
      → remove_file pf path s.fs ≡ (ok tt, put pf path none s.fs)
  unfolding remove_file
  removed path s h e = cc

  -- The calls of `compress` after the file has been opened.
  module _ (path : P) where
    abbrev last_calls : List ℕ → Method (Backend R P) (Unit {0})
    last_calls src =
        on_fs (copy_gzip scheme pf src (scheme.gz path))
        >> on_fs (remove_and_drop scheme pf src (scheme.gz path) path)

    abbrev checked_calls : List ℕ → Method (Backend R P) (Unit {0})
    checked_calls src =
        assert (λ s. exists_file path s.fs)
        >> (assert (λ s. exists_file (scheme.gz path) s.fs) >> last_calls src)

    abbrev rest_calls : List ℕ → Method (Backend R P) (Unit {0})
    rest_calls src = on_fs (create_file scheme pf (scheme.gz path)) >> checked_calls src

  module _ (path q : P) (content : List ℕ) (v : Option (List ℕ)) (gz : path ≢ scheme.gz path)
      (a : q ≢ path) (b : q ≢ scheme.gz path) where
    abbrev dest : P
    dest = scheme.gz path

    -- The file is there, and the other one is as it was.
    abbrev There : Backend R P → Type 0
    There s = (s.fs.files path ≡ some content) × (s.fs.files q ≡ v)

    abbrev Done : Io (Unit {0}) → Backend R P → Type 0
    Done r s = Kept path content s.fs × (s.fs.files q ≡ v)

    put-There :
        (c : Option (List ℕ)) (s : Backend R P)
        → There s
        → There (record s { fs = put pf dest c s.fs })
    put-There c s (h, g) =
        let zp = other_path dest path (λ e. gz (sym e)) in
        let zq = other_path dest q (λ e. b (sym e)) in (cc, cc)

    abbrev Opened : Io (List ℕ) → Backend R P → Type 0
    Opened (ok src) s = (src ≡ content) × There s
    Opened err s = There s

    abbrev Created : Io (Unit {0}) → Backend R P → Type 0
    Created (ok u) s = There s × (exists_file path s.fs ≡ true) × (exists_file dest s.fs ≡ true)
    Created err s = There s

    opens : Runs There (on_fs (open_file scheme pf path)) Opened
    unfolding open_file
    opens s (h, g) = elim (Bool-cases (pf.faulty (open_call path))) [
      | inl e ↦ (err, s, cc, (h, g))
      | inr e ↦ (ok content, s, cc, (refl, (h, g)))
    ]

    creates : Runs There (on_fs (create_file scheme pf dest)) Created
    unfolding create_file
    creates s h = elim (Bool-cases (pf.faulty (create_call dest))) [
      | inl e ↦ (err, s, cc, h)
      | inr e ↦
          let there = put-There (some []) s h in
          let zz = same_path dest in
          (ok tt, record s { fs = put pf dest (some []) s.fs }, cc, (there, ap is_some there.0, cc))
    ]

    copies : Runs There (on_fs (copy_gzip scheme pf content dest)) (λ r. There)
    unfolding copy_gzip
    copies s h = elim (Bool-cases (pf.faulty (copy_call dest))) [
      | inl e ↦ (err, s, cc, h)
      | inr e ↦ (
        ok tt,
        record s { fs = put pf dest (some (pf.gzip_begun content)) s.fs },
        cc,
        put-There (some (pf.gzip_begun content)) s h,
      )
    ]

    removes :
        pf.faulty (finish_call dest) ≡ false
        → Runs There (on_fs (remove_and_drop scheme pf content dest path)) Done
    unfolding remove_and_drop remove_file
    removes f s (h, g) =
        let finished = some (pf.gzip content) in
        elim (Bool-cases (pf.faulty (remove_call path))) [
          | inl e ↦
              let there = put-There finished s (h, g) in
              (err, record s { fs = put pf dest finished s.fs }, cc, (inl there.0, there.1))
          | inr e ↦
              let pp = same_path path in
              let zz = same_path dest in
              let zp = other_path dest path (λ e. gz (sym e)) in
              let zq = other_path dest q (λ e. b (sym e)) in
              let pq = other_path path q (λ e. a (sym e)) in
              (
                ok tt,
                record s { fs = put pf dest finished (put pf path none s.fs) },
                ap
                      (λ (t : Io (Unit {0}) × Fs P). returned (
                        t.0,
                        record s {
                          fs =
                              if pf.faulty (finish_call dest)
                              then t.1
                              else put pf dest finished t.1;
                        },
                      ))
                      (removed path s h e)
                    ∙ ap
                        (λ b. returned (
                          ok tt,
                          record s {
                            fs =
                                if b
                                then put pf path none s.fs
                                else put pf dest finished (put pf path none s.fs);
                          },
                        ))
                        f,
                (inr (cc, cc), cc),
              )
        ]

    There-Done : (s : Backend R P) → There s → Done err s
    There-Done s h = (inl h.0, h.1)

    last_calls-Done :
        pf.faulty (finish_call dest) ≡ false → Runs There (last_calls path content) Done
    last_calls-Done f = >>=-Runs (λ r. There) _ _ copies (λ u. removes f) There-Done

    checked_calls-Done :
        pf.faulty (finish_call dest) ≡ false
        → Runs (Created (ok tt)) (checked_calls path content) Done
    checked_calls-Done f =
        Runs-congr (checked_calls path content) (last_calls path content)
          (λ s h.
            assert-true (λ s. exists_file path s.fs)
              (assert (λ s. exists_file dest s.fs) >> last_calls path content) s h.1
            ∙ assert-true (λ s. exists_file dest s.fs) (last_calls path content) s h.2)
          (λ s h. last_calls-Done f s h.0)

    rest_calls-Done :
        pf.faulty (finish_call dest) ≡ false
        → (src : List ℕ) → Runs (Opened (ok src)) (rest_calls path src) Done
    rest_calls-Done f src s h =
        subst
          (λ src.
            (r : Io (Unit {0})) × (s' : Backend R P) × (rest_calls path src s ≡ returned (r, s'))
            × Done r s')
          (sym h.0) (>>=-Runs Created _ _ creates (λ u. checked_calls-Done f) There-Done s h.1)

    compress-Done : pf.faulty (finish_call dest) ≡ false → Runs There (compress scheme pf path) Done
    unfolding compress
    compress-Done f = >>=-Runs Opened _ _ opens (rest_calls-Done f) There-Done

  -- Where the file is there, its compressed path is another one and the encoder can be finished:
  -- compressing returns, whichever other calls fail, the file is then there with its bytes, or it is
  -- gone and the compressed file holds them, and no other file changes.
  pub compress-Kept :
      (path q : P) (content : List ℕ) (s : Backend R P)
      → s.fs.files path ≡ some content
      → path ≢ scheme.gz path
      → pf.faulty (finish_call (scheme.gz path)) ≡ false
      → q ≢ path
      → q ≢ scheme.gz path
      → (r : Io (Unit {0})) × (s' : Backend R P) × (compress scheme pf path s ≡ returned (r, s'))
        × Kept path content s'.fs
        × (s'.fs.files q ≡ s.fs.files q)
  compress-Kept path q content s h gz finish a b =
      let (r, s', e, d) = compress-Done path q content (s.fs.files q) gz a b finish s (h, refl) in
      (r, s', e, d.0, d.1)

  -- If every call succeeds but the one that finishes the encoder, compressing a file returns without an
  -- error, although the file is gone and the compressed one holds only what the encoder had written by
  -- then.
  pub compress_loses_data :
      (path : P) (content : List ℕ) (s : Backend R P)
      → s.fs.files path ≡ some content
      → path ≢ scheme.gz path
      → pf.faulty (open_call path) ≡ false
      → pf.faulty (create_call (scheme.gz path)) ≡ false
      → pf.faulty (copy_call (scheme.gz path)) ≡ false
      → pf.faulty (remove_call path) ≡ false
      → pf.faulty (finish_call (scheme.gz path)) ≡ true
      → (s' : Backend R P) × (compress scheme pf path s ≡ returned (ok tt, s'))
        × (s'.fs.files path ≡ none)
        × (s'.fs.files (scheme.gz path) ≡ some (pf.gzip_begun content))
  unfolding compress open_file create_file copy_gzip remove_and_drop
  compress_loses_data path content s h gz o c k m f =
      let z = scheme.gz path in
      let zz = same_path z in
      let pp = same_path path in
      let zp = other_path z path (λ e. gz (sym e)) in
      let pz = other_path path z gz in
      let s1 : Backend R P = record s { fs = put pf z (some []) s.fs } in
      let s2 : Backend R P = record s { fs = put pf z (some (pf.gzip_begun content)) s1.fs } in
      let h1 : s1.fs.files path ≡ some content = cc in
      let z1 : s1.fs.files z ≡ some [] = cc in
      let h2 : s2.fs.files path ≡ some content = cc in
      (
        record s { fs = put pf path none s2.fs },
        ran (on_fs (open_file scheme pf path)) (rest_calls path) content s s (cc)
            ∙ ran (on_fs (create_file scheme pf z)) (λ u. checked_calls path content) tt s s1 (cc)
            ∙ assert-true (λ s. exists_file path s.fs)
                (assert (λ s. exists_file z s.fs) >> last_calls path content) s1 (ap is_some h1)
            ∙ assert-true (λ s. exists_file z s.fs) (last_calls path content) s1 (ap is_some z1)
            ∙ ran (on_fs (copy_gzip scheme pf content z))
                (λ u. on_fs (remove_and_drop scheme pf content z path)) tt s1 s2 (cc)
            ∙ ap
                (λ (t : Io (Unit {0}) × Fs P). returned (
                  t.0,
                  record s {
                    fs =
                        if pf.faulty (finish_call z)
                        then t.1
                        else put pf z (some (pf.gzip content)) t.1;
                  },
                ))
                (removed path s2 h2 m)
            ∙ ap
                (λ b. returned (
                  ok tt,
                  record s {
                    fs =
                        if b
                        then put pf path none s2.fs
                        else put pf z (some (pf.gzip content)) (put pf path none s2.fs);
                  },
                ))
                f,
        cc,
        cc,
      )
