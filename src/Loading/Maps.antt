-- ===== src/Loading/Maps.antt =====
-- The tables of ragcore/rule_compile.py, ragcore/rule_output.py and ragcore/rule_gap.py, and the checks
-- that the modules make on them when they are imported.
use intelligent_rag_framewor.Prelude.{
  ℤ, pos, String, Bool, false, ◌&&◌, ◌||◌, List, [], ◌∷◌, Result, ok, raise, assertion_error, ◌>>=◌,
  raise_if, if◌then◌else◌, ◌==◌, int_eq, string_eq, leb_ℤ, elem,
}
use intelligent_rag_framewor.Prelude.Dict.{Dict}
use intelligent_rag_framewor.Types.ClaimStatus
use intelligent_rag_framewor.Types.RuleMaturity
use intelligent_rag_framewor.Value.{Value}
use intelligent_rag_framewor.Loading.Text.{strip}

abbrev pub rule_id_map : Dict String ℤ
rule_id_map = ("RULE_DOMAIN_SSH_001", pos 1) ∷ []

abbrev pub rule_maturity_map : Dict String ℤ
rule_maturity_map =
    ("experimental", RuleMaturity.experimental)
    ∷ ("stable", RuleMaturity.stable)
    ∷ ("deprecated", RuleMaturity.deprecated)
    ∷ []

abbrev pub claim_type_map : Dict String ℤ
claim_type_map = ("outdated_ssh_candidate", pos 1) ∷ []

abbrev pub claim_status_map : Dict String ℤ
claim_status_map =
    ("candidate", ClaimStatus.candidate)
    ∷ ("confirmed", ClaimStatus.confirmed)
    ∷ ("refuted", ClaimStatus.refuted)
    ∷ []

abbrev pub reason_code_map : Dict String ℤ
reason_code_map = ("OPENSSH_7_SERIES_BANNER", pos 1) ∷ ("SSH_PORT_OPEN", pos 2) ∷ []

abbrev pub required_evidence_map : Dict String ℤ
required_evidence_map =
    ("exact_openssh_version", pos 1)
    ∷ ("os_family", pos 2)
    ∷ ("package_backport_status", pos 3)
    ∷ []

abbrev pub is_uint16 : ℤ → Bool
is_uint16 n = leb_ℤ (pos 1) n && leb_ℤ n (pos 65535)

abbrev pub is_allowed_status : ℤ → Bool
is_allowed_status n =
    n == ClaimStatus.candidate || (n == ClaimStatus.confirmed || n == ClaimStatus.refuted)

-- `len(values) != len(set(values))`
unfoldable pub has_duplicates : List ℤ → Bool
has_duplicates [] = false
has_duplicates (n ∷ ns) = elem n ns || has_duplicates ns

module _ {F : Type 0} where
  -- an entry of a table: a key that is not blank, and an int that passes the test
  abbrev pub validate_entry : (ℤ → Bool) → Value F → Value F → Result ℤ
  validate_entry test (Value.str name) (Value.int n) =
      if strip name == ""
      then raise assertion_error
      else if test n
      then ok n
      else raise assertion_error
  validate_entry test _ _ = raise assertion_error

  -- the loop over the entries, which gives the values
  unfoldable pub validate_entries : (ℤ → Bool) → List (Value F × Value F) → Result (List ℤ)
  validate_entries test [] = ok []
  validate_entries test ((name, value) ∷ table) = do
    n ← validate_entry test name value
    ns ← validate_entries test table
    ok (n ∷ ns)

  abbrev pub validate_map : (ℤ → Bool) → List (Value F × Value F) → Result (Unit {0})
  validate_map test table = do
    ns ← validate_entries test table
    raise_if (has_duplicates ns) assertion_error

  unfoldable pub validate_rule_id_map : List (Value F × Value F) → Result (Unit {0})
  validate_rule_id_map table = validate_map is_uint16 table

  -- the same in rule_output.py and rule_gap.py
  unfoldable pub validate_uint16_map : List (Value F × Value F) → Result (Unit {0})
  validate_uint16_map table = validate_map is_uint16 table

  unfoldable pub validate_claim_status_map : List (Value F × Value F) → Result (Unit {0})
  validate_claim_status_map table = validate_map is_allowed_status table
