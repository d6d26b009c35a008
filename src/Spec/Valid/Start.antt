-- ===== src/Spec/Valid/Start.antt =====
-- `Engine()` of ragcore/engine.py satisfies what every state of a session satisfies.
use intelligent_rag_framewor.Prelude.{String, arith, elem, int_eq, string_eq, pair_eq, quad_eq}
use intelligent_rag_framewor.Prelude.Dict.{lookup, get_or}
use intelligent_rag_framewor.Floats.{Floats}
use intelligent_rag_framewor.Engine.State.{init}
use intelligent_rag_framewor.Spec.Valid.{IsValid}

-- A new engine is valid.
pub init-IsValid : {F : Type 0} ⦃fl : Floats F⦄ → (token : String) → IsValid {F = F} (init token)
unfolding init lookup get_or elem
init-IsValid token = ground arith
