-- ===== src/Lib.antt =====
-- A verification library for ragcore, a rule engine that keeps claims about entities, the evidence and
-- gaps of each claim, contradictions, and an audit trail, in one object, `Engine`.
--
-- The program and the files:
--   Types      ragcore/types.py: the frozen data classes and constants. `F` stands for `float`, and
--              `Floats` states the laws of IEEE arithmetic that the proofs use; `Floats/Fixed` is a
--              concrete instance, on which the tests run.
--   Engine     ragcore/engine.py and the mixins of ragcore/_engine, a file for each: `State` (engine.py:
--              the stores, ids, revision, guards), `Crud` (crud.py), `Relations` (relations.py), `Gaps`
--              (gaps.py), `Rules` (rules.py), `HintEvidence` (hint_evidence.py), `Lifecycle`
--              (lifecycle.py), `LifecycleHistory` (lifecycle_history.py), `Confidence` (confidence.py),
--              `ConfidenceAdapters` (confidence_adapters.py). A method is a function of the same name
--              in a state and error monad: it gives back the result or the exception, and the state,
--              also when it raises.
--   Condition  ragcore/condition.py: condition trees and their two evaluations, on the dynamic values of
--              `Value`; `Value/Comparison` is Python's equality and order on them, with the comparison of
--              ints with floats as an interface.
--   Runtime    ragcore/rule_runtime.py: one firing of a rule, which calls the engine and the evaluation
--              with a trace, with the templates of rule_output.py and rule_gap.py.
--   Loading    the way from a parsed rule file to a rule: `Tree` (load_condition_tree of
--              ragcore/condition.py), `Header` (ragcore/rule_loader.py), `Maps` (the tables of
--              rule_compile.py, rule_output.py and rule_gap.py, and their import-time checks), `Compile`
--              (the compilers of the three files and register_rule_spec), `Text` (`str.strip`). The YAML
--              parser is a parameter. `Loaded`, `Admitted`, `Compiled` and `Tables` say what comes out,
--              `Names`, `NamedEvidence` and `Named` describe the compiled templates by the names in
--              the file, and `Firing` follows a rule from its file to a firing.
--   Snapshot   ragcore/_engine/snapshot.py, over ragcore/_engine/serialization.py: `Records` and `Encode`
--              write a snapshot as a `Value`; `Arguments`, `Restore` and `Stores` read the data classes
--              and dicts back; `Collections` and `Integrity` are the integrity checks; `Decode` is the
--              migration and the whole decoding. The files ending in Trip, with `WrittenReferences`,
--              follow what was written through the checks and the decoder; `RoundTrip`, `Sessions` and
--              `Resumed` put them together. The files from `Accepted` on do the same for a snapshot of
--              unknown origin, up to `Soundness`.
--   Session    a client that calls the state-changing methods one after another and catches what they
--              raise: `perform` is one call, `run` a session.
--   Spec       the abstract machine: the single guarded changes of the state (`Step`), the edges
--              between the statuses of a claim (`Edge`), and what every valid state satisfies
--              (`Spec/Valid`; `Spec/Keyed` is about the association lists that stand for its dicts).
--              `Session/Refinement` goes from each method to a sequence of such steps, `Session/Edges`
--              from an edge to the method; `Spec/Permanence` and `Spec/Trail` are inductions on the
--              steps, and `Session/Memory`, `Session/Dedup` and `Session/Audit` draw what follows for
--              sessions.
--   Scoring    the bounds of the effective confidence.
--   Tests      concrete sessions and a rule, and each theorem applied to them.
--
-- How the state is modelled: a `dict` is an association list in insertion order, a `set` a list without
-- repetitions, an `int` a `ℤ`, `sorted` an insertion sort. Objects are frozen in the source, so nothing
-- is aliased but the engine itself, which is passed on. Loops run over lists, so there is no fuel. The
-- type of an argument is the annotated one, except for the hint evidence types, whose checks on the
-- types of values are modelled (`Value`). `sum` of floats adds from the left.
--
-- A snapshot is a JSON-compatible value (`Value`): no sets, and text keys in dicts. Python keeps a field
-- of a data class whose value has another type than the declared one; the model's records have no place
-- for it, so that the decoder gives the outcome `untyped` there, which is no exception of the program.
-- A status that is no int is one such value (`from_snapshot` goes on to raise TypeError for it). A dict
-- that is made of a sequence of pairs is `untyped` too.
--
-- Not modelled: the texts of exceptions, the packing of scores to uint16 (ragcore/types.py), and the
-- programs under examples/. The token of an engine is a parameter of `init`, since a random generator
-- draws it.
pub mod Condition
pub mod Engine
pub mod Floats
pub mod Loading
pub mod Prelude
pub mod Runtime
pub mod Scoring
pub mod Session
pub mod Snapshot
pub mod Spec
pub mod Tests
pub mod Types
pub mod Value
