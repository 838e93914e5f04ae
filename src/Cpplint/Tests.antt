-- ===== src/Cpplint/Tests.antt =====
-- The theorems at concrete inputs, and tests of the definitions.
mod Settings
mod Brackets
mod Lines
mod Modules
mod Files
mod Headers
mod Includes
mod Config
mod Arguments
mod Required
mod Style
mod CommentSpacing
mod SplitName
