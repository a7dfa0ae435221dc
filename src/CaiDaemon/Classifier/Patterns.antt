-- ===== src/CaiDaemon/Classifier/Patterns.antt =====
-- The keyword tables and the subject patterns of cc_cai_daemon/classifier.py.
use wingmen_orchestrator.Prelude.{
  Bool, false, ◌&&◌, ◌||◌, String, List, [], ◌∷◌, map, ◌==◌, nat_eq, if◌then◌else◌,
}
use wingmen_orchestrator.Prelude.Texts.{
  Text, codes, starts_with, contains, contains_gap, behind, lstrip, is_digit,
}

-- REACHES_OPERATOR_CATEGORIES
pub data Category : Type 0 where
  halal_riba zakat client_data_amanah client_facing_commitment ip_legal_contract : Category
  money_above_threshold irreversible_destructive novel_low_confidence : Category

abbrev riba_patterns : List String
riba_patterns =
    "interest" ∷ "loan" ∷ "credit-line" ∷ "bnpl" ∷ "buy-now-pay-later" ∷ "stripe radar"
    ∷ "underwriting" ∷ "finance-revenue" ∷ "fee-model" ∷ "pricing tier" ∷ "subscription billing"
    ∷ "card fee" ∷ "transaction fee" ∷ "lending" ∷ "credit card" ∷ []

abbrev zakat_patterns : List String
zakat_patterns = "zakat" ∷ []

abbrev client_data_patterns : List String
client_data_patterns =
    "pii" ∷ "personally identifiable" ∷ "tenant isolation" ∷ "encryption at rest"
    ∷ "field encryption" ∷ "data breach" ∷ "gdpr" ∷ "pdpa" ∷ "exfiltration" ∷ []

abbrev client_facing_patterns : List String
client_facing_patterns =
    "scope promise" ∷ "customer commitment" ∷ "client representation" ∷ "sla" ∷ "uptime guarantee"
    ∷ "marketing claim" ∷ []

abbrev ip_legal_patterns : List String
ip_legal_patterns =
    "intellectual property" ∷ "ip rights" ∷ "patent" ∷ "copyright" ∷ "trademark" ∷ "contract"
    ∷ "legal review" ∷ "open source license" ∷ "gpl " ∷ "agpl" ∷ "proprietary code"
    ∷ "license terms" ∷ []

abbrev money_patterns : List String
money_patterns =
    "approve spend" ∷ "purchase" ∷ "subscription upgrade" ∷ "wire transfer" ∷ "payment" ∷ "deposit"
    ∷ "credit card charge" ∷ "domain renewal" ∷ "above threshold" ∷ []

abbrev irreversible_patterns : List String
irreversible_patterns =
    "drop table" ∷ "drop database" ∷ "force push" ∷ "rm -rf" ∷ "decommission" ∷ "delete production"
    ∷ "wipe" ∷ "factory reset" ∷ "permanent delete" ∷ "truncate" ∷ []

-- _KEYWORD_LAYERS, in its order. It stays shut in proofs.
unfoldable pub keyword_layers : List (Category × List Text)
keyword_layers =
    (halal_riba, map codes riba_patterns)
    ∷ (zakat, map codes zakat_patterns)
    ∷ (client_data_amanah, map codes client_data_patterns)
    ∷ (client_facing_commitment, map codes client_facing_patterns)
    ∷ (ip_legal_contract, map codes ip_legal_patterns)
    ∷ (money_above_threshold, map codes money_patterns)
    ∷ (irreversible_destructive, map codes irreversible_patterns)
    ∷ []

-- The digits and what follows them up to the `h` of r"\d+\s*h"; `seen` says that one digit is read.
abbrev digits_then_h : Bool → Text → Bool
digits_then_h seen [] = false
digits_then_h seen (c ∷ s) =
    let rest = digits_then_h Bool.true s in
    if is_digit c then rest else seen && starts_with (lstrip (c ∷ s)) (b'h' ∷ [])

abbrev drop_plus : Text → Text
drop_plus [] = []
drop_plus (c ∷ s) = if c == b'+' then s else c ∷ s

-- What follows `tripwire` in _TRIPWIRE_RE. Its classes are disjoint, so no backtracking is needed.
abbrev tripwire_tail : Text → Bool
tripwire_tail s = digits_then_h false (lstrip (drop_plus (lstrip s)))

-- _TRIPWIRE_RE.search(s)
unfoldable pub tripwire_search : Text → Bool
tripwire_search [] = false
tripwire_search (c ∷ s) =
    starts_with (c ∷ s) (codes "tripwire") && tripwire_tail (behind (c ∷ s) (codes "tripwire"))
    || tripwire_search s

-- _CALIBRATION_RE.search(s)
unfoldable pub calibration_search : Text → Bool
unfolding contains_gap
calibration_search s = contains_gap s (codes "calibration") (codes "summary")

-- _FINDINGS_RE.search(s)
unfoldable pub findings_search : Text → Bool
unfolding contains
findings_search s = contains s (codes "findings")
