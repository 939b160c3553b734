-- ===== src/Agent/Strategies.antt =====
-- internal/agent/strategy.go: the strategies of the agent, and the prompts that they make.
use Prim.Native.String.{◌++◌ as str_append}
use pads_v.Common.{ℕ, String, Option, none, some, List, [], ◌∷◌, if◌then◌else◌, ◌==◌, take, Result}
use pads_v.Common.Float.{Float}
use pads_v.Common.Int.{pos}
use pads_v.Common.Table.{Table, lookup, insert}
use pads_v.Agent.Plans.{Task}
use pads_v.Agent.Coder.{Texts, CodeResponse, detect_language}
use pads_v.Agent.Llm.{CodePrompt}

pub record AgentStrategy (F : Type 0) : Type 0 where
  pub name : String
  pub temperature : F
  pub system_prompt : String
  pub description : String

-- The types and payloads of the events, and the rest of a Context that prompts read.
pub record Context : Type 0 where
  pub file_path : String
  pub package_path : String
  pub node_id : String
  pub events : List (String × String)
  pub source_content : String

-- Names to strategies; the random source is an argument of its users.
abbrev pub StrategyRegistry : Type 0 → Type 0
StrategyRegistry F = Table (AgentStrategy F)

unfoldable pub register : {F : Type 0} → AgentStrategy F → StrategyRegistry F → StrategyRegistry F
register s r = insert s.name s r

-- A line of a prompt, for a field that is not empty.
abbrev labelled : (newline : String) → String → String → String
labelled newline label text = if text == "" then "" else str_append label (str_append text newline)

abbrev event_line : (newline : String) → String × String → String
event_line newline (type, payload) =
    str_append "  - " (str_append type (str_append ": " (str_append payload newline)))

unfoldable pub event_lines : (newline : String) → List (String × String) → String
event_lines newline [] = ""
event_lines newline (e ∷ events) = str_append (event_line newline e) (event_lines newline events)

-- The block of the recent events, at most `limit` of them.
unfoldable pub recent_events : (newline : String) → ℕ → List (String × String) → String
unfolding event_lines
recent_events newline limit [] = ""
recent_events newline limit (e ∷ events) = str_append newline (
    str_append "Recent events:"
      (str_append newline (event_lines newline (take limit (e ∷ events)))))

abbrev source_block : (newline source : String) → String
source_block newline source =
    if source == ""
    then ""
    else str_append newline (
        str_append "--- Target source ---" (
          str_append newline
            (str_append source (str_append newline (str_append "--- End source ---" newline)))))

unfoldable pub context_text : (newline : String) → ℕ → Context → String
unfolding recent_events
context_text newline limit ctx = str_append (labelled newline "File: " ctx.file_path) (
    str_append (labelled newline "Package: " ctx.package_path) (
      str_append (labelled newline "Node ID: " ctx.node_id) (
        str_append (recent_events newline limit ctx.events)
          (source_block newline ctx.source_content))))

module _ (fl : Float) (texts : Texts) where
  open fl use {F}

  abbrev strategy : String → F → String → String → AgentStrategy F
  strategy name temperature description system_prompt = record {
    name = name;
    temperature = temperature;
    system_prompt = system_prompt;
    description = description;
  }

  -- DefaultStrategies. The four system prompts, of several lines each, are an argument.
  unfoldable pub default_strategies : (String → String) → StrategyRegistry F
  unfolding register
  default_strategies prompts =
      register
        (strategy "minimal-change" (fl.ratio (pos 15) (pos 100))
          "Ultra-minimal changes - only what's strictly necessary." (prompts "minimal-change"))
        (register
          (strategy "test-first" (fl.ratio (pos 3) (pos 10))
            "Writes tests first, then fixes to make tests pass." (prompts "test-first"))
          (register
            (strategy "aggressive" (fl.ratio (pos 7) (pos 10))
              "Bold refactoring when simple fixes won't work." (prompts "aggressive"))
            (register
              (strategy "conservative" (fl.ratio (pos 1) (pos 10))
                "Minimal, safe changes. Prefers small patches over large rewrites."
                (prompts "conservative"))
              [])))

  unfoldable pub select_by_temperature : F → StrategyRegistry F → Option (AgentStrategy F)
  select_by_temperature temp r =
      if fl.lt temp (fl.ratio (pos 2) (pos 10))
      then lookup "conservative" r
      else if fl.lt temp (fl.ratio (pos 4) (pos 10))
      then lookup "minimal-change" r
      else if fl.lt temp (fl.ratio (pos 6) (pos 10))
      then lookup "test-first" r
      else lookup "aggressive" r

  -- StrategyForUCBArm, SolveWithStrategy: the strategy of a name, or the conservative one.
  unfoldable pub strategy_for_arm : String → StrategyRegistry F → Option (AgentStrategy F)
  strategy_for_arm arm r = elim (lookup arm r) [ some s ↦ some s | none ↦ lookup "conservative" r ]

  unfoldable pub build_prompt_for_strategy : Task → Context → AgentStrategy F → CodePrompt F
  unfolding context_text detect_language
  build_prompt_for_strategy task ctx strategy = record {
    task = task.goal;
    file_path = task.target;
    language = detect_language texts task.target;
    context = context_text texts.newline 3 ctx;
    constraints = str_append "- " (str_append strategy.description texts.newline);
    temperature = fl.zero;
  }

  abbrev ended : String → String
  ended text = str_append text texts.newline

  unfoldable pub apply_strategy : Option (AgentStrategy F) → CodePrompt F → CodePrompt F
  apply_strategy none prompt = prompt
  apply_strategy (some s) prompt =
      if fl.lt fl.zero s.temperature then record prompt { temperature = s.temperature } else prompt

  -- CodeAgent.buildPrompt
  unfoldable pub build_prompt : Task → Context → CodePrompt F
  unfolding context_text detect_language
  build_prompt task ctx = record {
    task = task.goal;
    file_path = task.target;
    language = detect_language texts task.target;
    context = context_text texts.newline 5 ctx;
    constraints = str_append (ended "- Output only the complete, working code") (
        str_append (ended "- Follow existing code style and conventions") (
          str_append (ended "- Include appropriate tests if applicable")
            (ended "- Do not add unrelated changes")));
    temperature = fl.zero;
  }

  -- SolveWithStrategy, with what the selector chose and the model answers; a registry without the
  -- conservative strategy would panic, and gives none.
  unfoldable pub solve_with_strategy :
      StrategyRegistry F
      → String
      → (CodePrompt F → Result String (CodeResponse F))
      → Task
      → Context
      → Option (Result String (CodeResponse F) × AgentStrategy F)
  unfolding strategy_for_arm build_prompt_for_strategy apply_strategy
  solve_with_strategy r chosen model task ctx = elim (strategy_for_arm chosen r) [
    | none ↦ none
    | some s ↦ some (model (apply_strategy (some s) (build_prompt_for_strategy task ctx s)), s)
  ]
