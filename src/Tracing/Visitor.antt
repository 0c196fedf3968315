-- ===== src/Tracing/Visitor.antt =====
-- `TracingText` of src/tracing_bridge.rs: the text of a span's or an event's fields.
use captains_log.Base.{
  ◌≡◌, refl, ap, sym, ◌∙◌, List, [], ◌∷◌, ◌++◌, append-nil, append_assoc, true, false, Bool-cases,
  inl, inr, arith, Text, codes, is_empty, text_eq, if◌then◌else◌,
}
use captains_log.Tracing.{Visited, str, debug, TracingFormatter, record_all}

abbrev pub message : Text
message = codes "message"

abbrev pub pair : Text → Text → Text
pair name value = name ++ (codes "=" ++ value)

unfoldable pub record_str : Text → Text → Text → Text
record_str name value buf =
    if is_empty buf
    then if text_eq name message then buf ++ value else buf ++ pair name value
    else buf ++ (codes ", " ++ pair name value)

-- The value is the debug form.
unfoldable pub record_debug : Text → Text → Text → Text
record_debug name value buf =
    if is_empty buf
    then if text_eq name message then buf ++ value else buf ++ pair name value
    else buf ++ (codes ", " ++ pair name value)

unfoldable pub visit : Visited → Text → Text
unfolding record_str record_debug
visit (str name value) buf = record_str name value buf
visit (debug name value) buf = record_debug name value buf

unfoldable pub tracing_text : TracingFormatter Text
unfolding visit
tracing_text = record { default = []; visit = visit; as_ref = λ s. s }

-- What the text is to be: fields with their names, separated by commas, but a message that comes
-- first stands without its name, and one that is empty there leaves no trace.
abbrev pub name_of : Visited → Text
name_of (str name value) = name
name_of (debug name value) = name

abbrev pub value_of : Visited → Text
value_of (str name value) = value
value_of (debug name value) = value

abbrev pub first : Visited → Text
first f = if text_eq (name_of f) message then value_of f else pair (name_of f) (value_of f)

abbrev pub others : List Visited → Text
others [] = []
others (f ∷ fs) = codes ", " ++ (pair (name_of f) (value_of f) ++ others fs)

abbrev pub render : List Visited → Text
render [] = []
render (f ∷ fs) = if is_empty (first f) then render fs else first f ++ others fs

visit_empty : (f : Visited) → visit f [] ≡ first f
unfolding visit
visit_empty (str name value) = ground arith
visit_empty (debug name value) = ground arith

visit_more :
    (f : Visited) (buf : Text)
    → is_empty buf ≡ false
    → visit f buf ≡ buf ++ (codes ", " ++ pair (name_of f) (value_of f))
unfolding visit
visit_more (str name value) buf h = rw h refl
visit_more (debug name value) buf h = rw h refl

is_empty-append : (s t : Text) → is_empty s ≡ false → is_empty (s ++ t) ≡ false
is_empty-append [] t h = cc
is_empty-append (x ∷ xs) t h = refl

is_empty-nil : (s : Text) → is_empty s ≡ true → s ≡ []
is_empty-nil [] h = refl
is_empty-nil (x ∷ xs) h = cc

record_all-others :
    (fs : List Visited) (buf : Text)
    → is_empty buf ≡ false
    → record_all tracing_text fs buf ≡ buf ++ others fs
unfolding record_all tracing_text
record_all-others [] buf h = sym (append-nil buf)
record_all-others (f ∷ fs) buf h =
    let added = codes ", " ++ pair (name_of f) (value_of f) in
    ap (record_all tracing_text fs) (visit_more f buf h)
    ∙ record_all-others fs (buf ++ added) (is_empty-append buf added h)
    ∙ append_assoc buf added (others fs)
    ∙ ap (λ t. buf ++ t) (append_assoc (codes ", ") (pair (name_of f) (value_of f)) (others fs))

-- The text that the visitor builds, from the empty one, is that of all the fields in order.
pub record_all-render :
    (fs : List Visited) → record_all tracing_text fs tracing_text.default ≡ render fs
unfolding record_all tracing_text
record_all-render [] = refl
record_all-render (f ∷ fs) = elim (Bool-cases (is_empty (first f))) [
  | inl b ↦
      ap (record_all tracing_text fs) (visit_empty f ∙ is_empty-nil (first f) b)
      ∙ record_all-render fs
      ∙ rw b refl
  | inr b ↦
      ap (record_all tracing_text fs) (visit_empty f) ∙ record_all-others fs (first f) b ∙ rw b refl
]
