-- ===== src/StanzaError/RoundTrip.antt =====
-- What the error factory writes it reads back, and what it keeps of the error before.
use jreen.Base.{false, [], ◌∷◌, Text, text, text_discrete, Hash, get, ◌≡◌, ◌≢◌, refl, ap, ◌∙◌}
use jreen.Xml.{opened, text_read, closed}
use jreen.StanzaError.{
  ErrorType, undefined_type, unknown_type, ErrorCondition, undefined, unknown_condition,
  StanzaError, State, at_condition, Factory, type_text, type_of, condition_text, handle_event, feed,
  create_payload, ns_error, serialize, is_undefined_type, is_undefined,
}

type_of-type_text :
    (t : ErrorType) → t ≢ undefined_type → t ≢ unknown_type → type_of (type_text t) ≡ t
unfolding type_of type_text text_discrete
type_of-type_text undefined_type h g = absurd (h refl)
type_of-type_text unknown_type h g = absurd (g refl)
type_of-type_text _ h g = refl

is_undefined_type-other : (t : ErrorType) → t ≢ undefined_type → is_undefined_type t ≡ false
is_undefined_type-other undefined_type h = absurd (h refl)
is_undefined_type-other _ h = refl

is_undefined-other : (c : ErrorCondition) → c ≢ undefined → is_undefined c ≡ false
is_undefined-other undefined h = absurd (h refl)
is_undefined-other _ h = refl

-- The factory in an error of this type, in which this condition was read last.
abbrev in_error : State → ErrorType → ErrorCondition → Factory
in_error s t c = record { depth = 1; state = s; kind = t; condition = c; message = [] }

abbrev read_factory : ErrorType → ErrorCondition → Factory
read_factory t c = record { depth = 0; state = at_condition; kind = t; condition = c; message = [] }

read_condition :
    (c old : ErrorCondition) (s : State) (t : ErrorType)
    → c ≢ undefined
    → c ≢ unknown_condition
    → feed (opened (condition_text c) ns_error [] ∷ closed ∷ closed ∷ []) (in_error s t old)
      ≡ read_factory t c
unfolding feed handle_event condition_text text_discrete
read_condition undefined old s t h g = absurd (h refl)
read_condition unknown_condition old s t h g = absurd (g refl)
read_condition _ old s t h g = refl

module _ (e : StanzaError) (s : State) (t : ErrorType) (c : ErrorCondition) (old : Text) where
  abbrev pub before : Factory
  before = record { depth = 0; state = s; kind = t; condition = c; message = old }

  feed-serialize_error :
      e.kind ≢ undefined_type
      → e.kind ≢ unknown_type
      → e.condition ≢ undefined
      → e.condition ≢ unknown_condition
      → feed (serialize e) before ≡ read_factory e.kind e.condition
  unfolding feed handle_event serialize text_discrete get
  feed-serialize_error h g i j =
      rw (is_undefined_type-other e.kind h, is_undefined-other e.condition i)
        (ap
            (λ z.
              feed (opened (condition_text e.condition) ns_error [] ∷ closed ∷ closed ∷ [])
                (in_error s z c))
            (type_of-type_text e.kind h g)
          ∙ read_condition e.condition c s e.kind i j)

  -- An error that is written and read, after any other, is the same error without its text, where
  -- its type and its condition are among those that have a name.
  pub create_payload-serialize_error :
      e.kind ≢ undefined_type
      → e.kind ≢ unknown_type
      → e.condition ≢ undefined
      → e.condition ≢ unknown_condition
      → create_payload (feed (serialize e) before)
        ≡ record { kind = e.kind; condition = e.condition; message = [] }
  unfolding create_payload
  create_payload-serialize_error h g i j = ap create_payload (feed-serialize_error h g i j)

  -- An error that holds only a text is read with the condition of the error that was read before it,
  -- where the type and the condition of that are among those that have a name.
  pub condition_kept :
      (attributes : Hash Text) (words : Text)
      → e.kind ≢ undefined_type
      → e.kind ≢ unknown_type
      → e.condition ≢ undefined
      → e.condition ≢ unknown_condition
      → (create_payload (
          feed
            (opened (text "error") [] attributes
              ∷ opened (text "text") ns_error []
              ∷ text_read words
              ∷ closed
              ∷ closed
              ∷ [])
            (feed (serialize e) before))).condition
        ≡ e.condition
  unfolding create_payload feed handle_event text_discrete
  condition_kept attributes words h g i j = rw (feed-serialize_error h g i j) refl
