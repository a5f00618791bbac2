-- ===== src/Context/Dedup.antt =====
-- context/service.py: `_deduplicate`.
pub mod Unique
use note_rag.Base.{
  ℕ, ◌-◌, Bool, true, false, ◌||◌, ◌&&◌, List, [], ◌∷◌, ◌++◌, length, ◌==◌, if◌then◌else◌,
}
use note_rag.Chunking.Tokens.{Text, CharClass}
use note_rag.Context.Models.{ScoredHit}

unfoldable pub text_eq : Text → Text → Bool
text_eq [] [] = true
text_eq (a ∷ as') (b ∷ bs) = a == b && text_eq as' bs
text_eq _ _ = false

-- `k in seen`
unfoldable pub contains_id : ℕ → List ℕ → Bool
contains_id k [] = false
contains_id k (j ∷ js) = j == k || contains_id k js

unfoldable pub contains_text : Text → List Text → Bool
unfolding text_eq
contains_text t [] = false
contains_text t (s ∷ ss) = text_eq s t || contains_text t ss

-- `_WHITESPACE.sub(" ", text)`; the flag says that the last character was white space.
unfoldable pub collapse : CharClass → Bool → Text → Text
collapse k in_run [] = []
collapse k in_run (c ∷ cs) =
    (if k.is_space c then (if in_run then [] else 32 ∷ []) else c ∷ [])
    ++ collapse k (k.is_space c) cs

unfoldable pub lstrip : CharClass → Text → Text
lstrip k [] = []
lstrip k (c ∷ cs) = let rest = lstrip k cs in if k.is_space c then rest else c ∷ cs

unfoldable pub rstrip : CharClass → Text → Text
rstrip k [] = []
rstrip k (c ∷ cs) =
    let rest = rstrip k cs in
    if length rest == 0 then (if k.is_space c then [] else c ∷ []) else c ∷ rest

-- `casefold`, by the Unicode table of one code point
unfoldable pub casefold : (ℕ → Text) → Text → Text
casefold fold [] = []
casefold fold (c ∷ cs) = fold c ++ casefold fold cs

unfoldable pub normalized : CharClass → (ℕ → Text) → Text → Text
unfolding collapse lstrip rstrip casefold
normalized k fold text = casefold fold (rstrip k (lstrip k (collapse k false text)))

module _ (k : CharClass) (fold : ℕ → Text) where
  -- The loop: what is appended to `unique` from here on.
  unfoldable pub unique_from : List ℕ → List Text → List ScoredHit → List ScoredHit
  unique_from seen_ids seen_text [] = []
  unique_from seen_ids seen_text (item ∷ items) =
      let text = normalized k fold item.hit.text in
      let skipped = unique_from seen_ids seen_text items in
      let kept = item ∷ unique_from (item.hit.chunk_id ∷ seen_ids) (text ∷ seen_text) items in
      if contains_id item.hit.chunk_id seen_ids || contains_text text seen_text
      then skipped
      else kept

  unfoldable pub deduplicate : List ScoredHit → List ScoredHit × ℕ
  unfolding unique_from
  deduplicate hits = let unique = unique_from [] [] hits in (unique, length hits - length unique)
