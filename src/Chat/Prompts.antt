-- ===== src/Chat/Prompts.antt =====
-- backend/src/chat/prompts.py, and the table of tools.py. How a number and an amount are printed
-- are parameters.
use mini_company.Prelude.{ℕ, suc, none, some, List, [], ◌∷◌, ◌++◌, reverse}
use mini_company.Prelude.Int.{ℤ}
use mini_company.Prelude.Text.{Text, codes, get, lstrip}
use mini_company.Knowledge.Domain.{SearchHit}
use mini_company.Knowledge.Metadata.{untitled}
use mini_company.Ledger.Domain.{
  LedgerCategory, LedgerSummary, Period, revenue, cost, llm_cost, views, subscribers, daily,
  monthly, all,
}

-- What is printed.
pub record Printer : Type 0 where
  pub show_number : ℕ → Text
  pub show_amount : ℤ → Text

-- `"\n"`
abbrev newline : Text
newline = 10 ∷ []

-- `SYSTEM_PROMPT`
unfoldable pub system_prompt : Text
system_prompt =
    codes "당신은 mini-company의 자료 안내원이다. 회사가 수집한 자료와 원장 요약만으로 답한다."
    ++ newline
    ++ newline
    ++ codes "규칙:"
    ++ newline
    ++ codes "1. [자료]에 있는 내용만 근거로 답한다. 자료에 없는 것은 \"자료에 없습니다\"라고 말한다."
    ++ newline
    ++ codes "2. 각 문장 끝에 근거 번호를 [1] 형식으로 붙인다. 여러 개면 [1][2]처럼 이어 쓴다."
    ++ newline
    ++ codes "3. 숫자는 [원장 요약]에 적힌 값을 **그대로** 옮긴다. 더하거나 빼거나 반올림하지 않는다."
    ++ newline
    ++ codes "4. [원장 요약]과 [자료]에 없는 숫자는 절대 쓰지 않는다. 모르면 모른다고 답한다."
    ++ newline
    ++ codes "5. 추측·일반 상식·사전 지식으로 빈칸을 채우지 않는다."
    ++ newline
    ++ codes "6. 한국어로 간결하게 답한다."

-- `NOT_FOUND_ANSWER`
abbrev pub not_found_answer : Text
not_found_answer = codes "자료에 없습니다. 수집된 문서에서 근거를 찾지 못했습니다."

-- `titles.get(doc_id, '제목 없음')`
abbrev pub title_in : List (Text × Text) → Text → Text
title_in titles doc_id = elim (get doc_id titles) [ none ↦ untitled | some title ↦ title ]

-- `category.value`
unfoldable pub category_value : LedgerCategory → Text
category_value revenue = codes "REVENUE"
category_value cost = codes "COST"
category_value llm_cost = codes "LLM_COST"
category_value views = codes "VIEWS"
category_value subscribers = codes "SUBSCRIBERS"

-- `_UNIT_BY_CATEGORY`
unfoldable pub unit_by_category : LedgerCategory → Text
unit_by_category revenue = codes "KRW"
unit_by_category cost = codes "KRW"
unit_by_category llm_cost = codes "KRW"
unit_by_category views = codes "회"
unit_by_category subscribers = codes "명"

-- `period.value`
unfoldable pub period_value : Period → Text
period_value daily = codes "daily"
period_value monthly = codes "monthly"
period_value all = codes "all"

-- `str.rstrip()`
unfoldable pub rstrip : Text → Text
unfolding lstrip
rstrip t = reverse (lstrip (reverse t))

module _ (printer : Printer) where
  -- `[{index}] (출처: {title})\n{text}`, and the blocks joined by an empty line
  abbrev pub block_of : List (Text × Text) → ℕ → SearchHit → Text
  block_of titles index hit =
      codes "["
      ++ printer.show_number index
      ++ codes "] (출처: "
      ++ title_in titles hit.doc_id
      ++ codes ")"
      ++ newline
      ++ hit.text

  abbrev pub join_hits : List (Text × Text) → ℕ → List SearchHit → Text
  join_hits titles index [] = []
  join_hits titles index (hit ∷ []) = block_of titles index hit
  join_hits titles index (hit ∷ next ∷ hits) =
      block_of titles index hit ++ newline ++ newline ++ join_hits titles (suc index) (next ∷ hits)

  -- `build_context`
  unfoldable pub build_context : List SearchHit → List (Text × Text) → Text → Text
  build_context hits titles ledger_table =
      codes "[자료]" ++ newline ++ join_hits titles 1 hits ++ newline ++ newline ++ ledger_table

  -- `_render_row`
  unfoldable pub render_row : LedgerSummary → LedgerCategory → Text
  unfolding category_value unit_by_category rstrip
  render_row summary category = rstrip (
      codes "- "
      ++ category_value category
      ++ codes ": "
      ++ printer.show_amount (summary.totals category)
      ++ codes " "
      ++ unit_by_category category)

  -- `render_ledger_table`
  unfoldable pub render_ledger_table : LedgerSummary → Text
  unfolding render_row period_value
  render_ledger_table summary =
      codes "[원장 요약] (기간: "
      ++ period_value summary.period
      ++ codes ")"
      ++ newline
      ++ render_row summary revenue
      ++ newline
      ++ render_row summary cost
      ++ newline
      ++ render_row summary llm_cost
      ++ newline
      ++ render_row summary views
      ++ newline
      ++ render_row summary subscribers
      ++ newline
      ++ codes "- 순손익: "
      ++ printer.show_amount summary.net
      ++ codes " KRW"

-- `build_question`
unfoldable pub build_question : Text → Text
build_question question = codes "[질문]" ++ newline ++ question
