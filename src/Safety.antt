-- ===== src/Safety.antt =====
-- dealfinder/safety.py: the test for prompt injection and the audit log. `re.search(p, text, re.I)`
-- is a parameter.
use tutorial_dealfinder.Base.{ℕ, String, Bool, List, [], ◌∷◌, ◌++◌, any, Dict, string_eq}

-- `_INJECTION`
abbrev pub injection : List String
injection =
    "ignore (all |the )?previous" ∷ "disregard .*instructions" ∷ "system prompt"
    ∷ "reveal .*(secret|key|password|prompt)" ∷ "you are now" ∷ []

-- `detect_prompt_injection`
abbrev pub detect_prompt_injection : (String → String → Bool) → String → Bool
detect_prompt_injection search text = any (λ p. search p text) injection

-- a value of an entry's metadata
pub data Meta : Type 0 where
  text : String → Meta
  number : ℕ → Meta

-- `{"action": action, **meta}`
pub record Entry : Type 0 where
  pub action : String
  pub meta : Dict String Meta

abbrev pub AuditLog : Type 0
AuditLog = List Entry

-- `AuditLog.record`
abbrev pub record_action : AuditLog → String → Dict String Meta → AuditLog
record_action log action meta = log ++ record { action = action; meta = meta } ∷ []
