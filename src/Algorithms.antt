-- ===== src/Algorithms.antt =====
-- algorithms/: solved exercises. ValidNumber and Atoi hold the definitions; Numeral and Clamp compare
-- them with what a number is. StringTask holds both versions of its exercise and compares them.
-- Examples runs the first two.
pub mod ValidNumber
pub mod Numeral
pub mod Atoi
pub mod Clamp
pub mod StringTask
pub mod Examples
