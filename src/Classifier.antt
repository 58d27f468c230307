-- ===== src/Classifier.antt =====
-- classifier.go: the rules that give a device its class.
pub mod Rule
pub mod Compile
pub mod Match
pub mod Run
pub mod Applies
pub mod Best
