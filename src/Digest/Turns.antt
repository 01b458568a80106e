-- ===== src/Digest/Turns.antt =====
-- `_pair_chat_turns` of backend/services/session_digest_service.py.
use mathlib.Core.List.{append-nil, append_assoc}
use kemory_community.Prelude.{
  ℕ, ◌≡◌, refl, sym, Text, text, text_eq, Bool, not, ◌||◌, Option, none, some, List, [], ◌∷◌, ◌++◌,
  keep, leb, lstrip, rstrip, Bool-cases, inl, inr, if◌then◌else◌,
}
use kemory_community.Prelude.Order.{sort}

pub record AiChatTurn : Type 0 where
  pub turn_id : ℕ
  pub role : Text
  pub sequence : Option ℕ
  pub content : Option Text

pub record ChatExchange : Type 0 where
  pub anchor_turn_id : ℕ
  pub content : Text

abbrev strip : Text → Text
strip t = rstrip (lstrip t)

-- `(turn.content or "").strip()`
unfoldable pub turn_text : AiChatTurn → Text
turn_text t = elim t.content [ none ↦ [] | some c ↦ strip c ]

abbrev pub is_user : AiChatTurn → Bool
is_user t = text_eq t.role (text "user")

abbrev pub takes_part : AiChatTurn → Bool
takes_part t = is_user t || text_eq t.role (text "assistant")

abbrev number : AiChatTurn → ℕ
number t = elim t.sequence [ none ↦ 0 | some n ↦ n ]

-- The turns of the two roles by their sequence; equal ones keep their order.
unfoldable pub ordered : List AiChatTurn → List AiChatTurn
ordered turns = sort (λ a b. leb (number a) (number b)) (keep takes_part turns)

abbrev pub labelled : AiChatTurn → Text
labelled t = if is_user t then text "User: " ++ turn_text t else text "Assistant: " ++ turn_text t

abbrev pub flush_user : Option AiChatTurn → List ChatExchange
flush_user none = []
flush_user (some u) =
    record { anchor_turn_id = u.turn_id; content = text "User: " ++ turn_text u } ∷ []

-- An assistant's turn with a text answers the pending user's turn, or stands alone.
abbrev pub answered : Option AiChatTurn → AiChatTurn → ChatExchange
answered none t = record { anchor_turn_id = t.turn_id; content = text "Assistant: " ++ turn_text t }
answered (some u) t = record {
  anchor_turn_id = t.turn_id;
  content = text "User: " ++ turn_text u ++ text "\nAssistant: " ++ turn_text t;
}

-- The loop, with the pending user's turn.
unfoldable pub pair_turns : Option AiChatTurn → List AiChatTurn → List ChatExchange
pair_turns pending [] = flush_user pending
pair_turns pending (t ∷ ts) =
    let skipped = pair_turns pending ts in
    let asked = pair_turns (some t) ts in
    let done = pair_turns none ts in
    if text_eq (turn_text t) []
    then skipped
    else if is_user t
    then flush_user pending ++ asked
    else answered pending t ∷ done

unfoldable pub pair_chat_turns : List AiChatTurn → List ChatExchange
pair_chat_turns turns = pair_turns none (ordered turns)

-- Lines of text, each with its end.
abbrev pub lines_of : {A : Type 0} → (A → Text) → List A → Text
lines_of f [] = []
lines_of f (x ∷ xs) = f x ++ (10 ∷ lines_of f xs)

abbrev pub is_spoken : AiChatTurn → Bool
is_spoken t = not (text_eq (turn_text t) [])

lines_of-append :
    {A : Type 0} (f : A → Text) (xs ys : List A)
    → lines_of f (xs ++ ys) ≡ lines_of f xs ++ lines_of f ys
lines_of-append f [] ys = refl
lines_of-append f (x ∷ xs) ys =
    rw (lines_of-append f xs ys) (sym (append_assoc (f x) (10 ∷ lines_of f xs) (lines_of f ys)))

-- The line that a pending turn will become.
abbrev held : Option AiChatTurn → Text
held none = []
held (some u) = text "User: " ++ turn_text u ++ 10 ∷ []

asked_lines :
    (pending : Option AiChatTurn) (t : AiChatTurn) (ts : List AiChatTurn)
    → lines_of (λ x. x.content) (pair_turns (some t) ts)
      ≡ held (some t) ++ lines_of labelled (keep is_spoken ts)
    → lines_of (λ x. x.content) (flush_user pending ++ pair_turns (some t) ts)
      ≡ held pending
        ++ (text "User: " ++ turn_text t ++ (10 ∷ lines_of labelled (keep is_spoken ts)))
asked_lines none t ts h = simp (h, append_assoc)
asked_lines (some u) t ts h = simp (h, append_assoc)

answered_lines :
    (pending : Option AiChatTurn) (t : AiChatTurn) (ts : List AiChatTurn)
    → lines_of (λ x. x.content) (pair_turns none ts) ≡ lines_of labelled (keep is_spoken ts)
    → lines_of (λ x. x.content) (answered pending t ∷ pair_turns none ts)
      ≡ held pending
        ++ (text "Assistant: " ++ turn_text t ++ (10 ∷ lines_of labelled (keep is_spoken ts)))
answered_lines none t ts h = simp (h, append_assoc)
answered_lines (some u) t ts h = simp (h, append_assoc)

pair_turns-lines :
    (pending : Option AiChatTurn) (ts : List AiChatTurn)
    → lines_of (λ x. x.content) (pair_turns pending ts)
      ≡ held pending ++ lines_of labelled (keep is_spoken ts)
unfolding pair_turns
pair_turns-lines none [] = refl
pair_turns-lines (some u) [] = rw append-nil refl
pair_turns-lines pending (t ∷ ts) = elim (Bool-cases (text_eq (turn_text t) [])) [
  | inl blank ↦ rw blank (pair_turns-lines pending ts)
  | inr spoken ↦ elim (Bool-cases (is_user t)) [
    | inl user ↦ rw (spoken, user) (asked_lines pending t ts (pair_turns-lines (some t) ts))
    | inr other ↦ rw (spoken, other) (answered_lines pending t ts (pair_turns-lines none ts))
  ]
]

-- The lines of the exchanges are the labelled texts of the ordered turns that have one.
pub exchange_lines :
    (turns : List AiChatTurn)
    → lines_of (λ x. x.content) (pair_chat_turns turns)
      ≡ lines_of labelled (keep is_spoken (ordered turns))
unfolding pair_chat_turns
exchange_lines turns = pair_turns-lines none (ordered turns)
