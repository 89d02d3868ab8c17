-- ===== src/Tests/DispatchTests.antt =====
-- A message inside a stream, for one stanza factory.
use jreen.Base.{ℕ, Bool, some, List, [], ◌∷◌, ◌≡◌, Text, text, text_eq, if◌then◌else◌}
use jreen.Dispatch.{Reader, Report, waiting_for_stanza, handle_all}
use jreen.Dispatch.Restore.{Forest, empty, element, handle_all-restores, events}
use jreen.Dispatch.Restore

abbrev pub is_features : Text → Bool
is_features e = text_eq e (text "features")

abbrev pub stanzas_for : Text → List ℕ
stanzas_for e = if text_eq e (text "message") then 7 ∷ [] else []

abbrev pub features_for : Text → List ℕ
features_for e = []

abbrev in_stream : Reader
in_stream = record { depth = 1; state = waiting_for_stanza; parsers = []; parsers_count = 0 ∷ [] }

abbrev document : Forest Text
document =
    element (text "message") (element (text "body") (Restore.text (text "hi") empty) empty) empty

handle_all-restores_example :
    (after : Reader) × (reports : List (Report Text is_features stanzas_for features_for))
    × (handle_all Text is_features stanzas_for features_for
          (events Text is_features stanzas_for features_for document)
          in_stream
        ≡ some (after, reports))
    × (after.depth ≡ 1)
    × (after.parsers ≡ [])
    × (after.parsers_count ≡ 0 ∷ [])
handle_all-restores_example =
    handle_all-restores Text is_features stanzas_for features_for document in_stream
