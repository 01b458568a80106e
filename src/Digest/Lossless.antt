-- ===== src/Digest/Lossless.antt =====
-- `_pair_chat_turns` of backend/services/session_digest_service.py loses no text.
use kemory_community.Prelude.{
  ℕ, ◌≡◌, refl, ap, ◌∙◌, Text, text, text_eq, Bool, true, false, not, ◌&&◌, ◌||◌, none, some, List,
  [], ◌∷◌, ◌++◌, All, keep, leb, lstrip, rstrip, ◌==◌, if◌then◌else◌, arith,
}
use kemory_community.Prelude.Order.{Shuffled, Sorted, sort, sort-Shuffled, sort-Sorted}
use kemory_community.Prelude.Stable.{keep-keep, keep-All, keep-sort, sort-same}
use kemory_community.Digest.Turns.{
  AiChatTurn, turn_text, ordered, pair_chat_turns, lines_of, labelled, is_spoken, takes_part,
  exchange_lines,
}

-- The text of a turn without the blanks around it; a missing one is empty.
abbrev pub said : AiChatTurn → Text
said t = elim t.content [ none ↦ [] | some c ↦ rstrip (lstrip c) ]

abbrev pub sequence_of : AiChatTurn → ℕ
sequence_of t = elim t.sequence [ none ↦ 0 | some n ↦ n ]

-- A turn of a user or an assistant with a text.
abbrev pub speaks : AiChatTurn → Bool
speaks t =
    (text_eq t.role (text "user") || text_eq t.role (text "assistant")) && not (text_eq (said t) [])

abbrev pub spoken_line : AiChatTurn → Text
spoken_line t =
    if text_eq t.role (text "user") then text "User: " ++ said t else text "Assistant: " ++ said t

abbrev pub earlier : AiChatTurn → AiChatTurn → Bool
earlier a b = leb (sequence_of a) (sequence_of b)

-- `spoken` has the turns that speak, each as often as `turns`, by their sequence; turns with the
-- same one keep their order.
abbrev pub InOrder : List AiChatTurn → List AiChatTurn → Type 0
InOrder turns spoken =
    Shuffled spoken (keep speaks turns)
    × Sorted earlier spoken
    × ((n : ℕ)
        → keep (λ t. sequence_of t == n) spoken
          ≡ keep (λ t. sequence_of t == n) (keep speaks turns))

earlier_trans : (a b c : AiChatTurn) → earlier a b ≡ true → earlier b c ≡ true → earlier a c ≡ true
earlier_trans a b c h k = ground (arith, h, k)

earlier_total : (a b : AiChatTurn) → earlier a b ≡ false → earlier b a ≡ true
earlier_total a b h = ground (arith, h)

same_sequence :
    (n : ℕ) (ts : List AiChatTurn) → All (λ t. (sequence_of t == n) ≡ true) ts → Sorted earlier ts
same_sequence n [] h = tt
same_sequence n (t ∷ ts) h = (below ts h.1, same_sequence n ts h.1)
  where
    below :
        (us : List AiChatTurn)
        → All (λ u. (sequence_of u == n) ≡ true) us
        → All (λ u. earlier t u ≡ true) us
    below [] k = tt
    below (u ∷ us) k = (ground (arith, h.0, k.0), below us k.1)

sort-InOrder : (turns : List AiChatTurn) → InOrder turns (sort earlier (keep speaks turns))
sort-InOrder turns = (
  sort-Shuffled earlier (keep speaks turns),
  sort-Sorted earlier earlier_trans earlier_total (keep speaks turns),
  λ n.
      let test = λ (t : AiChatTurn). sequence_of t == n in
      keep-sort earlier earlier_trans earlier_total test (keep speaks turns)
      ∙ sort-same earlier earlier_trans earlier_total _
          (same_sequence n _ (keep-All test (keep speaks turns))),
)

spoken_turns :
    (turns : List AiChatTurn) → keep is_spoken (ordered turns) ≡ sort earlier (keep speaks turns)
unfolding ordered turn_text
spoken_turns turns =
    keep-sort earlier earlier_trans earlier_total is_spoken (keep takes_part turns)
    ∙ ap (sort earlier) (keep-keep is_spoken takes_part turns)

spoken_lines : (ts : List AiChatTurn) → lines_of labelled ts ≡ lines_of spoken_line ts
unfolding turn_text
spoken_lines ts = refl

-- The exchanges lose, repeat and reorder no text: their contents, line by line, are the labelled and
-- stripped texts of all turns of users and assistants that have one, by the sequence of the turns,
-- where turns with the same sequence keep their order.
pub pair-lossless :
    (turns : List AiChatTurn)
    → (spoken : List AiChatTurn) × InOrder turns spoken
      × (lines_of (λ x. x.content) (pair_chat_turns turns) ≡ lines_of spoken_line spoken)
pair-lossless turns = (
  sort earlier (keep speaks turns),
  sort-InOrder turns,
  exchange_lines turns ∙ ap (lines_of labelled) (spoken_turns turns) ∙ spoken_lines _,
)
