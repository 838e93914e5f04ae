-- ===== src/Cpplint.antt =====
-- lab1_External_Sort/script/cpplint.py, the style checker that each lab's build runs over its C++
-- sources (the four labs hold the same file).
pub mod Categories
pub mod Report
pub mod Suppressions
pub mod LintState
pub mod IncludeState
pub mod Expression
pub mod Comments
pub mod CleansedLines
pub mod FunctionState
pub mod Nesting
pub mod SameModule
pub mod Paths
pub mod FileInfo
pub mod HeaderGuard
pub mod Config
pub mod Arguments
pub mod FileChecks
pub mod FunctionLengths
pub mod Includes
pub mod SplitName
pub mod Required
pub mod Style
pub mod SectionSpacing
pub mod CommentSpacing
pub mod ProcessFile
mod Tests
