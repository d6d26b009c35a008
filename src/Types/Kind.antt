-- ===== src/Types/Kind.antt =====
-- The kind discriminators of cross-kind references. (ragcore/types.py)
use intelligent_rag_framewor.Prelude.{ℤ, pos}

abbrev pub entity : ℤ
entity = pos 1

abbrev pub observation : ℤ
observation = pos 2

abbrev pub claim : ℤ
claim = pos 3

abbrev pub evidence : ℤ
evidence = pos 4

abbrev pub relation : ℤ
relation = pos 5

abbrev pub gap : ℤ
gap = pos 6
