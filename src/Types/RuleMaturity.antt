-- ===== src/Types/RuleMaturity.antt =====
-- The maturities of a rule. (ragcore/types.py)
use intelligent_rag_framewor.Prelude.{ℤ, pos}

abbrev pub experimental : ℤ
experimental = pos 0

abbrev pub stable : ℤ
stable = pos 1

abbrev pub deprecated : ℤ
deprecated = pos 2
