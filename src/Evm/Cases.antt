-- ===== src/Evm/Cases.antt =====
-- The cases of `interpretCases` (libevm/VM.cpp), one definition for each. A case that ends in NEXT
-- moves the program counter on, one that ends in CONTINUE has set it, and BREAK leaves the loop;
-- since the trampoline comes back for whatever `m_bounce` says, all three just end the step here.
pub mod Words
pub mod Env
pub mod Memory
pub mod Control
pub mod World
pub mod Call
