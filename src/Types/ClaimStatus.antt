-- ===== src/Types/ClaimStatus.antt =====
-- The claim statuses. (ragcore/types.py)
use intelligent_rag_framewor.Prelude.{ℤ, pos}

abbrev pub candidate : ℤ
candidate = pos 0

abbrev pub confirmed : ℤ
confirmed = pos 1

abbrev pub refuted : ℤ
refuted = pos 2

abbrev pub disputed : ℤ
disputed = pos 3
