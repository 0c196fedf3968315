-- ===== src/Tracing/Layer/Refine.antt =====
-- The layer of src/tracing_bridge.rs keeps of each span the text of its fields.
use captains_log.Base.{
  ℕ, ◌≡◌, refl, sym, ap, subst, ◌∙◌, List, [], ◌∷◌, ◌++◌, none, some, Bool, true, false, Bool-cases,
  Option-cases, inl, inr, Outcome, returned, ◌>>=◌, Text, codes, ◌==◌, All, if◌then◌else◌,
}
use mathlib.Core.Option
use captains_log.Logger.{Env, Global, log}
use captains_log.Tracing.{
  Metadata, Record, Visited, TracingFormatter, Registry, CaptainsLogLayer, record_all, record_of,
  span_args, Bridge, log_span, on_new_span, on_record, log_known, on_enter, on_exit, on_close,
  on_event,
}
use captains_log.Tracing.Layer.{
  Callback, new_span, recorded, entered, exited, closed, event, callback, callbacks, log_records,
  Fields, set_fields, span_record, told, told_all, told_known, told_new, known_fields, unless,
}

-- What the registry promises: an extension that was inserted is read again, and nothing else changes.
pub record RegistryLaws {F T : Type 0} (reg : Registry F T) : Type 0 where
  pub get-insert :
      (i j : ℕ) (v : F) (t : T)
      → reg.get j (reg.insert i v t) ≡ (if i == j then some v else reg.get j t)
  pub metadata-insert :
      (i j : ℕ) (v : F) (t : T) → reg.metadata j (reg.insert i v t) ≡ reg.metadata j t

record_all-append :
    {F : Type 0} (fmt : TracingFormatter F) (xs ys : List Visited) (v : F)
    → record_all fmt (xs ++ ys) v ≡ record_all fmt ys (record_all fmt xs v)
unfolding record_all
record_all-append fmt [] ys v = refl
record_all-append fmt (x ∷ xs) ys v = record_all-append fmt xs ys (fmt.visit x v)

log_records-append :
    {C S L W : Type 0} (env : Env C S L Record W) (xs ys : List Record) (g : Global S W)
    → log_records env (xs ++ ys) g ≡ log_records env ys (log_records env xs g)
unfolding log_records
log_records-append env [] ys g = refl
log_records-append env (x ∷ xs) ys g = log_records-append env xs ys (log env x g)

module _ {C S L W F T : Type 0} (env : Env C S L Record W) (fmt : TracingFormatter F)
    (reg : Registry F T) (laws : RegistryLaws reg) (text : List Visited → Text)
    (renders : (l : List Visited) → fmt.as_ref (record_all fmt l fmt.default) ≡ text l)
    (meta : ℕ → Metadata) (layer : CaptainsLogLayer) where
  abbrev formatted : List Visited → F
  formatted l = record_all fmt l fmt.default

  -- Each span's extension is what the formatter makes of its fields, where it has any.
  abbrev pub Agrees : Fields → T → Type 0
  Agrees fs t = (j : ℕ) → reg.get j t ≡ Option.map formatted (fs j)

  -- The span of a call is known to the registry, with this metadata.
  abbrev pub IsKnown : T → Callback → Type 0
  IsKnown t (new_span id attrs) = reg.metadata id t ≡ some (meta id)
  IsKnown t (recorded id values) = reg.metadata id t ≡ some (meta id)
  IsKnown t (entered id) = reg.metadata id t ≡ some (meta id)
  IsKnown t (exited id) = reg.metadata id t ≡ some (meta id)
  IsKnown t (closed id) = reg.metadata id t ≡ some (meta id)
  IsKnown t (event m fields) = Unit

  abbrev Kept : T → T → Type 0
  Kept t t' = (j : ℕ) → reg.metadata j t' ≡ reg.metadata j t

  -- A call comes to these fields and records.
  abbrev Does : Outcome (Bridge S W T) → Bridge S W T → Fields × List Record → Type 0
  Does m b to =
      (b' : Bridge S W T) × (m ≡ returned b')
      × (b'.logger ≡ log_records env to.1 b.logger)
      × Agrees to.0 b'.spans
      × Kept b.spans b'.spans

  Agrees-insert :
      (fs : Fields) (t : T) (id : ℕ) (l : List Visited)
      → Agrees fs t
      → Agrees (set_fields id l fs) (reg.insert id (formatted l) t)
  Agrees-insert fs t id l h j = elim (Bool-cases (id == j)) [
    | inl e ↦ laws.get-insert id j (formatted l) t ∙ rw e refl
    | inr e ↦ laws.get-insert id j (formatted l) t ∙ rw e (h j)
  ]

  log_span-told :
      (id : ℕ) (action : Text) (l : List Visited) (g : Global S W)
      → log_span env fmt reg id (meta id) action (formatted l) g
        ≡ log_records env (span_record text meta layer id action l ∷ []) g
  unfolding log_span log_records
  log_span-told id action l g =
      ap (λ t. log env (record_of (meta id) (span_args id action t)) g) (renders l)

  nothing : (b : Bridge S W T) (fs : Fields) → Agrees fs b.spans → Does (returned b) b (fs, [])
  unfolding log_records
  nothing b fs h = (b, refl, refl, h, λ j. refl)

  log_known-told :
      (off : Bool) (action : Text) (id : ℕ) (fs : Fields) (b : Bridge S W T)
      → reg.metadata id b.spans ≡ some (meta id)
      → Agrees fs b.spans
      → Does
          (log_known env fmt reg off action id b)
          b
          (fs, unless off (told_known text meta layer id action (fs id)))
  unfolding log_known
  log_known-told true action id fs b k h = nothing b fs h
  log_known-told false action id fs b k h = elim (Option-cases (fs id)) [
    | inl e ↦
        let none_there : reg.get id b.spans ≡ none = h id ∙ rw e refl in
        rw (k, e, none_there) (nothing b fs h)
    | inr (l, e) ↦
        let there : reg.get id b.spans ≡ some (formatted l) = h id ∙ rw e refl in
        rw (k, e, there)
          (
            record b { logger = log_span env fmt reg id (meta id) action (formatted l) b.logger },
            refl,
            log_span-told id action l b.logger,
            h,
            λ j. refl,
          )
  ]

  on_new_span-told :
      (id : ℕ) (attrs : List Visited) (fs : Fields) (b : Bridge S W T)
      → reg.metadata id b.spans ≡ some (meta id)
      → Agrees fs b.spans
      → layer.disable_span_new ≡ false
      → Does
          (on_new_span env fmt reg layer attrs id b)
          b
          (told_new text meta layer id attrs (fs id) fs)
  unfolding on_new_span
  on_new_span-told id attrs fs b k h on = elim (Option-cases (fs id)) [
    | inl e ↦
        let none_there : reg.get id b.spans ≡ none = h id ∙ rw e refl in
        rw (on, k, e, none_there)
          (
            record b {
              logger = log_span env fmt reg id (meta id) (codes "new") (formatted attrs) b.logger;
              spans = reg.insert id (formatted attrs) b.spans;
            },
            refl,
            log_span-told id (codes "new") attrs b.logger,
            Agrees-insert fs b.spans id attrs h,
            λ j. laws.metadata-insert id j (formatted attrs) b.spans,
          )
    | inr (l, e) ↦
        let there : reg.get id b.spans ≡ some (formatted l) = h id ∙ rw e refl in
        rw (on, k, e, there) (nothing b fs h)
  ]

  -- The formatter goes on from what the span has, or from nothing.
  formatted_more :
      (id : ℕ) (values : List Visited) (fs : Fields) (t : T)
      → Agrees fs t
      → record_all fmt values (elim (reg.get id t) [ none ↦ fmt.default | some v ↦ v ])
        ≡ formatted (known_fields (fs id) ++ values)
  unfolding record_all
  formatted_more id values fs t h = elim (Option-cases (fs id)) [
    | inl e ↦ let none_there : reg.get id t ≡ none = h id ∙ rw e refl in rw (e, none_there) refl
    | inr (l, e) ↦
        let there : reg.get id t ≡ some (formatted l) = h id ∙ rw e refl in
        rw (e, there) (sym (record_all-append fmt l values fmt.default))
  ]

  on_record-told :
      (id : ℕ) (values : List Visited) (fs : Fields) (b : Bridge S W T)
      → reg.metadata id b.spans ≡ some (meta id)
      → Agrees fs b.spans
      → layer.disable_span_new ≡ false
      → let l = known_fields (fs id) ++ values in
        Does (on_record env fmt reg layer id values b) b (
          set_fields id l fs,
          unless layer.disable_record (span_record text meta layer id (codes "record") l ∷ []),
        )
  unfolding on_record log_records
  on_record-told id values fs b k h on =
      let l = known_fields (fs id) ++ values in
      elim (Bool-cases layer.disable_record) [
        | inl off ↦
            rw (on, k, off, formatted_more id values fs b.spans h)
              (
                record b { spans = reg.insert id (formatted l) b.spans },
                refl,
                refl,
                Agrees-insert fs b.spans id l h,
                λ j. laws.metadata-insert id j (formatted l) b.spans,
              )
        | inr off ↦
            rw (on, k, off, formatted_more id values fs b.spans h)
              (
                record b {
                  logger =
                      log_span env fmt reg id (meta id) (codes "record") (formatted l) b.logger;
                  spans = reg.insert id (formatted l) b.spans;
                },
                refl,
                log_span-told id (codes "record") l b.logger,
                Agrees-insert fs b.spans id l h,
                λ j. laws.metadata-insert id j (formatted l) b.spans,
              )
      ]

  callback-told :
      (c : Callback) (fs : Fields) (b : Bridge S W T)
      → IsKnown b.spans c
      → Agrees fs b.spans
      → Does (callback env fmt reg layer c b) b (told text meta layer c fs)
  unfolding callback told on_enter on_exit on_close on_event log_records
  callback-told (new_span id attrs) fs b k h = elim (Bool-cases layer.disable_span_new) [
    | inl off ↦ rw (off, on_new_span) (nothing b fs h)
    | inr on ↦
        subst (Does (callback env fmt reg layer (new_span id attrs) b) b)
          (ap (λ off. if off then (fs, []) else told_new text meta layer id attrs (fs id) fs)
            (sym on))
          (on_new_span-told id attrs fs b k h on)
  ]
  callback-told (recorded id values) fs b k h = elim (Bool-cases layer.disable_span_new) [
    | inl off ↦ rw (off, on_record) (nothing b fs h)
    | inr on ↦
        let l = known_fields (fs id) ++ values in
        subst (Does (callback env fmt reg layer (recorded id values) b) b)
          (ap
            (λ off. if off then (fs, []) else (
              set_fields id l fs,
              unless layer.disable_record (span_record text meta layer id (codes "record") l ∷ []),
            ))
            (sym on))
          (on_record-told id values fs b k h on)
  ]
  callback-told (entered id) fs b k h =
      log_known-told layer.disable_enter (codes "enter") id fs b k h
  callback-told (exited id) fs b k h = log_known-told layer.disable_exit (codes "exit") id fs b k h
  callback-told (closed id) fs b k h =
      log_known-told layer.disable_close (codes "close") id fs b k h
  callback-told (event m fields) fs b k h = (
    record b { logger = log env (record_of m (fmt.as_ref (formatted fields))) b.logger },
    refl,
    ap (λ t. log env (record_of m t) b.logger) (renders fields),
    h,
    λ j. refl,
  )

  IsKnown-Kept : (t t' : T) (c : Callback) → Kept t t' → IsKnown t c → IsKnown t' c
  IsKnown-Kept t t' (new_span id attrs) kept k = kept id ∙ k
  IsKnown-Kept t t' (recorded id values) kept k = kept id ∙ k
  IsKnown-Kept t t' (entered id) kept k = kept id ∙ k
  IsKnown-Kept t t' (exited id) kept k = kept id ∙ k
  IsKnown-Kept t t' (closed id) kept k = kept id ∙ k
  IsKnown-Kept t t' (event m fields) kept k = tt

  All-Kept : (t t' : T) (cs : List Callback) → Kept t t' → All (IsKnown t) cs → All (IsKnown t') cs
  All-Kept t t' [] kept ks = tt
  All-Kept t t' (c ∷ cs) kept ks = (IsKnown-Kept t t' c kept ks.0, All-Kept t t' cs kept ks.1)

  -- Where the registry keeps extensions (`RegistryLaws`), knows the spans of the calls and agrees
  -- with the fields at the start: any sequence of calls to the layer returns, the records that reach
  -- the global logger are those of `told_all`, in order, each with the text of all the fields
  -- recorded of its span so far, and the registry agrees with the fields at the end.
  pub callbacks-told :
      (cs : List Callback) (fs : Fields) (b : Bridge S W T)
      → All (IsKnown b.spans) cs
      → Agrees fs b.spans
      → (b' : Bridge S W T) × (callbacks env fmt reg layer cs b ≡ returned b')
        × (b'.logger ≡ log_records env (told_all text meta layer cs fs).1 b.logger)
        × Agrees (told_all text meta layer cs fs).0 b'.spans
  unfolding callbacks told_all log_records
  callbacks-told [] fs b ks h = (b, refl, refl, h)
  callbacks-told (c ∷ cs) fs b ks h =
      let (b1, run1, log1, h1, kept) = callback-told c fs b ks.0 h in
      let (fs1, rs1) = told text meta layer c fs in
      let rest = told_all text meta layer cs fs1 in
      let (b2, run2, log2, h2) =
        callbacks-told cs fs1 b1 (All-Kept b.spans b1.spans cs kept ks.1) h1 in
      (
        b2,
        ap (λ o. o >>= callbacks env fmt reg layer cs) run1 ∙ run2,
        log2 ∙ ap (log_records env rest.1) log1 ∙ sym (log_records-append env rs1 rest.1 b.logger),
        h2,
      )
