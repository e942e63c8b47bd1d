-- ===== src/Tools/Vetting.antt =====
-- dealfinder/tool_trust.py: the scan of a tool's description, and the gate on a list of tools.
-- `re.search` and `str.lower` are parameters.
pub mod Gate
use Prim.Native.String.{◌++◌ as str_append}
use tutorial_dealfinder.Base.{
  String, Bool, true, false, not, ◌&&◌, ◌||◌, Option, none, some, List, [], ◌∷◌, ◌++◌,
  if◌then◌else◌, keep, get_or, occurs, join, contains, string_eq,
}
use tutorial_dealfinder.Safety.{detect_prompt_injection}

-- `_TOOL_REDFLAGS`
abbrev pub redflags : List String
redflags =
    "exfiltrate" ∷ "send to" ∷ "curl " ∷ "base64" ∷ "read the file" ∷ "environment variable"
    ∷ "api key" ∷ "secret" ∷ "ignore the schema" ∷ "before calling any other tool" ∷ []

-- A tool descriptor: what the code reads of the `dict`.
pub record Tool : Type 0 where
  pub name : Option String
  pub description : Option String
  pub server : Option String

pub record ToolVerdict : Type 0 where
  pub name : String
  pub safe : Bool
  pub issues : List String

pub record Vetted : Type 0 where
  pub registered : List Tool
  pub quarantined : List ToolVerdict

-- `not issues`
abbrev pub no_issues : List String → Bool
no_issues [] = true
no_issues (_ ∷ _) = false

-- the issue of the red flags that were hit
unfoldable pub suspicious : List String → List String
suspicious [] = []
suspicious (h ∷ found) = str_append "suspicious phrases: " (join ", " (h ∷ found)) ∷ []

module _ (search : String → String → Bool) (lower : String → String) where
  -- the text that is scanned
  unfoldable pub scanned : Tool → String
  scanned t =
      lower (str_append (get_or t.name "<unnamed>") (str_append " " (get_or t.description "")))

  -- the red flags in the text
  unfoldable pub hits : Tool → List String
  hits t = keep (λ f. occurs f (scanned t)) redflags

  unfoldable pub issues_of : Tool → List String
  issues_of t =
      (if detect_prompt_injection search (scanned t)
        then "description contains prompt-injection phrasing" ∷ []
        else [])
      ++ suspicious (hits t)

  -- `scan_tool`
  unfoldable pub scan_tool : Tool → ToolVerdict
  scan_tool t =
      let issues = issues_of t in
      record { name = get_or t.name "<unnamed>"; safe = no_issues issues; issues = issues }

  -- the verdict of `vet_tools` on one tool
  unfoldable pub verdict_of : List String → Tool → ToolVerdict
  verdict_of allowlist t =
      let server = get_or t.server "" in
      let verdict = scan_tool t in
      if contains allowlist server then verdict else record verdict {
        safe = false;
        issues = str_append "server '" (str_append server "' not on allowlist") ∷ verdict.issues;
      }

  -- `vet_tools`; the allowlist, a set, is a list
  unfoldable pub vet_tools : List Tool → List String → Vetted
  vet_tools [] allowlist = record { registered = []; quarantined = [] }
  vet_tools (t ∷ tools) allowlist =
      let v = vet_tools tools allowlist in
      let verdict = verdict_of allowlist t in
      if verdict.safe
      then record v { registered = t ∷ v.registered }
      else record v { quarantined = verdict ∷ v.quarantined }
