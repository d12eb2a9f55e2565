-- ===== src/TestCases/Editing.antt =====
-- What an edit of a test case changes.
use ai_test.Base.{ℕ, suc, ◌≡◌, true, Option, none, some, List}
use ai_test.TestCases.{
  CaseRow, TestCaseUpdateRequest, CaseStore, is_editable, find_row, assertions_of,
}

-- A field that an edit sets has the new value, and one that it leaves out the old value.
pub data IsWritten {A : Type 0} : Option A → A → A → Type 0 where
  left_out : (a : A) → IsWritten none a a
  given : (a b : A) → IsWritten (some b) a b

module _ {F : Type 0} where
  -- The row of a case before and after an accepted edit.
  pub record IsNextVersion (payload : TestCaseUpdateRequest F) (c c' : CaseRow F) : Type 0 where
    pub same_id : c'.id ≡ c.id
    pub same_api : c'.api_definition_id ≡ c.api_definition_id
    pub same_status : c'.status ≡ c.status
    pub next_version : c'.version ≡ suc c.version
    pub name : IsWritten payload.name c.name c'.name
    pub description : IsWritten payload.description c.description c'.description
    pub priority : IsWritten payload.priority c.priority c'.priority
    pub preconditions : IsWritten payload.preconditions c.preconditions c'.preconditions
    pub request_template : IsWritten payload.request_template c.request_template c'.request_template

  -- The two stores around an edit.
  abbrev pub Edited : ℕ → ℕ → TestCaseUpdateRequest F → CaseStore F → CaseStore F → Type 0
  Edited case_id j payload store store' =
      ((c : CaseRow F) × (c' : CaseRow F) × (is_editable c.status ≡ true)
        × (find_row case_id store.cases ≡ some c)
        × (find_row case_id store'.cases ≡ some c')
        × IsNextVersion payload c c')
      × (find_row j store'.cases ≡ find_row j store.cases)
      × (assertions_of j store'.assertions ≡ assertions_of j store.assertions)
