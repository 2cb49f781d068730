-- ===== src/Circuit.antt =====
-- zkmips-circuits/src/: the tables that the circuit looks up, and how numbers become elements of its
-- field. The field of the proof system is a parameter.
pub mod Field
pub mod RwTable
pub mod Expression
pub mod ConstraintBuilder
pub mod HashRound
pub mod ProgramHash
pub mod ProgramTable
pub mod OpcodeTable
