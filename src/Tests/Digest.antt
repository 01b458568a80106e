-- ===== src/Tests/Digest.antt =====
-- Tests of the session digest.
use kemory_community.Prelude.{
  ℕ, ◌≡◌, ◌≤◌, ◌⊎◌, refl, Text, text, text_eq, is_space, Option, some, List, [], ◌∷◌, All, In,
  length, lstrip, rstrip,
}
use kemory_community.Prelude.Order.{sort, place}
use kemory_community.Digest.Turns.{
  AiChatTurn, turn_text, ordered, pair_turns, pair_chat_turns, lines_of,
}
use kemory_community.Digest.Lossless.{InOrder, spoken_line, pair-lossless}
use kemory_community.Digest.Budget.{
  Encoding, count_tokens, ends_line, splitlines, strip, fitted, fit_text_to_budget,
}
use kemory_community.Digest.SourceIds.{ids_from_source_exchange_ids, combined_source_exchange_ids}
use kemory_community.Digest.Fitted.{fit_within}
use kemory_community.Digest.RoundTrip.{Recovered, ids_from-combined}

abbrev turn : ℕ → Text → Text → AiChatTurn
turn n role said = record { turn_id = n; role = role; sequence = some n; content = some said }

abbrev turns : List AiChatTurn
turns =
    turn 3 (text "assistant") (text "Hi")
    ∷ turn 1 (text "user") (text " Hello ")
    ∷ turn 2 (text "system") (text "x")
    ∷ turn 4 (text "user") (text "Bye")
    ∷ []

paired :
    pair_chat_turns turns
    ≡ record { anchor_turn_id = 3; content = text "User: Hello\nAssistant: Hi" }
      ∷ record { anchor_turn_id = 4; content = text "User: Bye" }
      ∷ []
unfolding pair_chat_turns pair_turns ordered sort place turn_text lstrip rstrip is_space text_eq
paired = refl

pair-lossless_example :
    (spoken : List AiChatTurn) × InOrder turns spoken
    × (lines_of (λ x. x.content) (pair_chat_turns turns) ≡ lines_of spoken_line spoken)
pair-lossless_example = pair-lossless turns

abbrev by_character : Option Encoding
by_character = some (record { encode_length = length; encode-empty = refl })

fit_within_example :
    ((fit_text_to_budget by_character (text "one\ntwo") 5).1 ≤ 5)
    × ((fit_text_to_budget by_character (text "one\ntwo") 5).1
        ≡ count_tokens by_character (fit_text_to_budget by_character (text "one\ntwo") 5).0)
    × (((fit_text_to_budget by_character (text "one\ntwo") 5).0 ≡ strip (text "one\ntwo"))
        ⊎ ((fit_text_to_budget by_character (text "one\ntwo") 5).0 ≡ [])
        ⊎ ((kept : List Text) × All (λ l. In l (splitlines (strip (text "one\ntwo")))) kept
            × ((fit_text_to_budget by_character (text "one\ntwo") 5).0 ≡ fitted kept)))
fit_within_example = fit_within by_character 5 (text "one\ntwo")

abbrev ids : List Text
ids = text "a" ∷ [] ∷ text "a" ∷ []

ids_from-combined_example :
    let (found, found') =
      ids_from_source_exchange_ids (combined_source_exchange_ids ids (text "b" ∷ [])) in
    Recovered ids found × Recovered (text "b" ∷ []) found'
ids_from-combined_example = ids_from-combined ids (text "b" ∷ [])

split_lines : splitlines (text "one\r\ntwo\n") ≡ text "one" ∷ text "two" ∷ []
unfolding splitlines ends_line
split_lines = refl
