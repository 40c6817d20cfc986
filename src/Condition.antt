-- ===== src/Condition.antt =====
-- The condition language, internal/executionsemantics/condition.go: one child for each stage.
pub mod Tokens
pub mod Lexer
pub mod Values
pub mod Regex
pub mod Parser
pub mod Evaluate
pub mod ParserSafety
pub mod LexerReads
pub mod LexerSafety
pub mod EvaluateSafety
pub mod Laws
pub mod Grammar
pub mod SampleHost
mod Samples
