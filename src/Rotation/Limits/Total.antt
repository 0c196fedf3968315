-- ===== src/Rotation/Limits/Total.antt =====
-- Where the sink has a creation time and the files can be renamed, `rotate` returns.
use captains_log.Base.{
  ℕ, ◌≡◌, refl, ◌∙◌, List, Option, none, some, Bool, true, false, ◌||◌, returned, arith, Bool-cases,
  inl, inr,
}
use captains_log.Rotation.Limits.{
  Archive, LimiterAge, LogRotate, FileSink, age_reached, size_reached, wait, due, rotate,
}

-- What moves and cleans up archived files leaves the bytes that were logged alone, and the
-- renaming meets no error.
pub record ArchiveLaws {W : Type 0} (archive : Archive W) (appended : W → List ℕ) : Type 0 where
  pub renamed :
      (w : W) → (w' : W) × (archive.rename_files w ≡ returned w') × (appended w' ≡ appended w)
  pub cleaned : (w : W) → appended (archive.handle_old_files w) ≡ appended w

age_reached_total :
    (limit : Option LimiterAge) (now t size : ℕ)
    → (b : Bool) × (age_reached limit now (record { create_time = some t; size = size })
        ≡ returned b)
unfolding age_reached
age_reached_total none now t size = (false, refl)
age_reached_total (some l) now t size = (_, refl)

module _ {W : Type 0} (archive : Archive W) {appended : W → List ℕ}
    (laws : ArchiveLaws archive appended) where
  pub wait-appended : (ro : LogRotate) (w : W) → appended (wait archive ro w).1 ≡ appended w
  unfolding wait
  wait-appended ro w = ground (arith, laws.cleaned w)

  due_total :
      (ro : LogRotate) (w : W)
      → (ro' : LogRotate) × (w' : W) × (due archive ro w ≡ returned (true, ro', w'))
        × (appended w' ≡ appended w)
  unfolding due
  due_total ro w =
      let (w', e, same) = laws.renamed (wait archive ro w).1 in
      (record (wait archive ro w).0 { th = true }, w', rw e, same ∙ wait-appended ro w)

  -- Whatever the limits say, the rotation returns and the logged bytes stay as they are.
  pub rotate_total :
      (ro : LogRotate) (now t size : ℕ) (w : W)
      → (b : Bool) × (ro' : LogRotate) × (w' : W) × (rotate archive ro now
            (record { create_time = some t; size = size })
            w
          ≡ returned (b, ro', w'))
        × (appended w' ≡ appended w)
  unfolding rotate
  rotate_total ro now t size w =
      let sink : FileSink = record { create_time = some t; size = size } in
      let (by_age, aged) = age_reached_total ro.age_limit now t size in
      elim (Bool-cases (by_age || size_reached ro.size_limit sink)) [
        | inl yea ↦
            let (ro', w', e, same) = due_total ro w in (true, ro', w', rw (aged, yea) e, same)
        | inr nay ↦ (false, ro, w, rw (aged, nay), refl)
      ]
