-- ===== src/Context/History.antt =====
-- `compact_history` of dealfinder/context.py. The token count of a text, `str.strip`, `str.lower` and
-- the first line of a text are parameters.
use tutorial_dealfinder.Base.{
  ℕ, zero, suc, ◌-◌, String, not, ◌||◌, ◌==◌, List, [], ◌∷◌, map, keep, length, take, leb, nat_beq,
  if◌then◌else◌, join, concat, occurs, starts_with, after_colon, string_eq,
}

pub record Compacted : Type 0 where
  pub text : String
  pub turns_before : ℕ
  pub turns_kept : ℕ
  pub tokens_before : ℕ
  pub tokens_after : ℕ

-- `turns[n:]`
unfoldable pub drop : ℕ → List String → List String
drop zero turns = turns
drop (suc n) [] = []
drop (suc n) (t ∷ turns) = drop n turns

-- `turns[:-k]` and `turns[-k:]`, where 0 and -0 are the same index
unfoldable pub before_last : ℕ → List String → List String
before_last k turns = if nat_beq k 0 then [] else take (length turns - k) turns

unfoldable pub last_turns : ℕ → List String → List String
last_turns k turns = if nat_beq k 0 then turns else drop (length turns - k) turns

module _ (strip lower first_line : String → String) where
  -- `_user_intent`
  unfoldable pub user_intent : String → String
  user_intent turn =
      let line = first_line (strip turn) in
      if not (starts_with "user:" (lower line) || starts_with "user " (lower line))
      then ""
      else if occurs ":" line
      then strip (after_colon line)
      else line

  -- `intents`
  unfoldable pub intents : List String → List String
  intents old = keep (λ i. not (i == "")) (map user_intent old)

  -- the compacted text
  unfoldable pub compacted_text : List String → List String → String
  compacted_text old recent =
      join "\n" (concat ("[earlier queries: " ∷ join " → " (intents old) ∷ "]" ∷ []) ∷ recent)

  -- `compact_history`
  unfoldable pub compact_history : (String → ℕ) → List String → ℕ → Compacted
  compact_history count_tokens turns keep_recent =
      let before = join "\n" turns in
      if leb (length turns) keep_recent
      then record {
        text = before;
        turns_before = length turns;
        turns_kept = length turns;
        tokens_before = count_tokens before;
        tokens_after = count_tokens before;
      }
      else (let after =
            compacted_text (before_last keep_recent turns) (last_turns keep_recent turns) in
          record {
            text = after;
            turns_before = length turns;
            turns_kept = keep_recent;
            tokens_before = count_tokens before;
            tokens_after = count_tokens after;
          })

module _ (count_tokens : String → ℕ) (strip lower first_line : String → String) where
  -- the line that stands for the turns before
  abbrev pub summary_of : List String → String
  summary_of old =
      concat ("[earlier queries: " ∷ join " → " (intents strip lower first_line old) ∷ "]" ∷ [])
