-- ===== src/Chat/History/Recent.antt =====
-- chat/service.py: which messages the history holds.
use mathlib.Core.List.{
  reverse, reverse-cons, reverse-append, reverse-reverse, append_assoc, append-nil,
}
use note_rag.Base.{
  ℕ, zero, suc, ◌+◌, ◌-◌, min, ◌≤◌, ◌<◌, ◌≡◌, ◌⊎◌, inl, inr, refl, sym, ap, ◌∙◌, subst, List, [],
  ◌∷◌, ◌++◌, length, take, drop, length-append, length-drop, ltb, arith, Bool-cases,
}
use note_rag.Chat.Models.{ChatMessageRecord}
use note_rag.Chat.History.{select, selected}

abbrev pub Messages : Type 0
Messages = List ChatMessageRecord

abbrev pub tokens : Messages → ℕ
tokens [] = 0
tokens (m ∷ ms) = m.token_count + tokens ms

tokens-append : (xs ys : Messages) → tokens (xs ++ ys) ≡ tokens xs + tokens ys
tokens-append [] ys = omega arith
tokens-append (x ∷ xs) ys = omega (arith, tokens-append xs ys)

tokens-reverse : (xs : Messages) → tokens (reverse xs) ≡ tokens xs
tokens-reverse [] = refl
tokens-reverse (x ∷ xs) =
    ap tokens (reverse-cons x xs)
    ∙ omega (arith, tokens-append (reverse xs) (x ∷ []), tokens-reverse xs)

length-reverse : (xs : Messages) → length (reverse xs) ≡ length xs
length-reverse [] = refl
length-reverse (x ∷ xs) =
    ap length (reverse-cons x xs)
    ∙ omega (arith, length-append (reverse xs) (x ∷ []), length-reverse xs)

take-drop : (n : ℕ) (xs : Messages) → take n xs ++ drop n xs ≡ xs
take-drop zero xs = refl
take-drop (suc n) [] = refl
take-drop (suc n) (x ∷ xs) = ap (◌∷◌ x) (take-drop n xs)

module _ (max_tokens : ℕ) where
  -- Nothing is left, or the next message does not fit.
  abbrev IsFull : ℕ → Messages → Type 0
  IsFull used [] = Unit
  IsFull used (m ∷ ms) = max_tokens < used + m.token_count

  select-IsFull :
      (used : ℕ) (xs : Messages)
      → used ≤ max_tokens
      → (rest : Messages) × (xs ≡ select max_tokens used xs ++ rest)
        × (used + tokens (select max_tokens used xs) ≤ max_tokens)
        × IsFull (used + tokens (select max_tokens used xs)) rest
  unfolding select
  select-IsFull used [] le = ([], refl, omega arith, tt)
  select-IsFull used (m ∷ ms) le = elim (Bool-cases (ltb max_tokens (used + m.token_count))) [
    | inl over ↦ rw over (m ∷ ms, refl, omega arith, ground arith)
    | inr fits ↦
        let (rest, e, le', full) = select-IsFull (used + m.token_count) ms (ground arith) in
        rw fits (rest, ap (◌∷◌ m) e, omega arith, subst (λ n. IsFull n rest) (omega arith) full)
  ]

module _ (max_messages max_tokens : ℕ) where
  -- The messages end in `h`, which is within both limits, and is all that the first limit allows, or
  -- with the message before it would be past the second.
  abbrev pub IsRecent : Messages → Messages → Type 0
  IsRecent messages h =
      (older : Messages) × (messages ≡ older ++ h)
      × (length h ≤ max_messages)
      × (tokens h ≤ max_tokens)
      × ((length h ≡ min max_messages (length messages))
          ⊎ ((o : Messages) × (m : ChatMessageRecord) × (older ≡ o ++ (m ∷ []))
              × (max_tokens < tokens h + m.token_count)))

  module _ (messages : Messages) where
    abbrev skipped : ℕ
    skipped = length messages - max_messages

    abbrev newest : Messages
    newest = reverse (drop skipped messages)

    abbrev chosen : Messages
    chosen = select max_tokens 0 newest

    splits :
        (rest : Messages)
        → newest ≡ chosen ++ rest
        → messages ≡ take skipped messages ++ reverse rest ++ reverse chosen
    splits rest e =
        sym (take-drop skipped messages)
        ∙ ap (λ x. take skipped messages ++ x)
            (sym (reverse-reverse (drop skipped messages))
              ∙ ap reverse e
              ∙ reverse-append chosen rest)
        ∙ sym (append_assoc (take skipped messages) (reverse rest) (reverse chosen))

    length-newest : length newest ≡ min max_messages (length messages)
    length-newest =
        length-reverse (drop skipped messages) ∙ length-drop skipped messages ∙ omega arith

    recent :
        (rest : Messages)
        → newest ≡ chosen ++ rest
        → 0 + tokens chosen ≤ max_tokens
        → IsFull max_tokens (0 + tokens chosen) rest
        → IsRecent messages (reverse chosen)
    recent [] e le full =
        let n : length newest ≡ length chosen = ap length (e ∙ append-nil chosen) in
        (
          take skipped messages ++ reverse [],
          splits [] e,
          omega (arith, length-reverse chosen, length-newest),
          omega (arith, tokens-reverse chosen),
          inl (omega (arith, length-reverse chosen, length-newest)),
        )
    recent (m ∷ rest) e le full =
        let n : length newest ≡ length (chosen ++ (m ∷ rest)) = ap length e in
        let parts = length-append chosen (m ∷ rest) in
        (
          take skipped messages ++ reverse (m ∷ rest),
          splits (m ∷ rest) e,
          omega (arith, length-reverse chosen, length-newest),
          omega (arith, tokens-reverse chosen),
          inr (
            take skipped messages ++ reverse rest,
            m,
            ap (λ x. take skipped messages ++ x) (reverse-cons m rest)
                ∙ sym (append_assoc (take skipped messages) (reverse rest) (m ∷ [])),
            omega (arith, tokens-reverse chosen),
          ),
        )

-- The messages selected for the history are the last ones of the conversation in their order, at most as many
-- and with at most as many tokens as the limits say, and no fewer than that: they are as many as
-- the first limit allows, or the tokens of the message before them would pass the second.
pub selected-IsRecent :
    (max_messages max_tokens : ℕ) (messages : Messages)
    → IsRecent max_messages max_tokens messages (selected max_messages max_tokens messages)
unfolding selected
selected-IsRecent max_messages max_tokens messages =
    let (rest, e, le, full) =
      select-IsFull max_tokens 0 (newest max_messages max_tokens messages) (omega arith) in
    recent max_messages max_tokens messages rest e le full
