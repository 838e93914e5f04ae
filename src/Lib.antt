-- ===== src/Lib.antt =====
-- A verification library for the BuzzDB labs: four C++ database labs, each with a folder
-- `script/` of Python programs that its build runs over the sources (the four copies are the
-- same, and are cited below as lab1_External_Sort/script/...).
--
-- What is modelled first is the style checker, cpplint.py: the build's target `check-lint` runs it over
-- every source file of a lab. It reads a file into lines, removes raw strings, comments and
-- strings (CleansedLines), runs its checks over each line with the state of the includes, of the
-- function and of the brackets, and hands each error to Error, which asks the NOLINT comments, the
-- verbosity and the filters whether to print and count it.
--
-- Base            shared names; texts as lists of code points with Python's methods on `str`;
--                 dictionaries as association lists
-- Regex           the patterns handed to `re`, as data, and a backtracking matcher for them;
--                 Match, Search and ReplaceAll of cpplint.py are match_at_start, search_text, sub
-- Cpplint.Categories      the tables of error categories
-- Cpplint.Suppressions    ParseNolintSuppressions and its kin, over the two module variables
-- Cpplint.LintState       _CppLintState, _ShouldPrintError, Error
-- Cpplint.IncludeState    _IncludeState
-- Cpplint.Expression      FindEndOfExpressionInLine, CloseExpression and their mirror images
-- Cpplint.Comments        IsCppString, CleanseComments, RemoveMultiLineComments and its parts
-- Cpplint.CleansedLines   CleanseRawStrings and the class CleansedLines
-- Cpplint.FunctionState   _FunctionState
-- Cpplint.FunctionLengths CheckForFunctionLengths
-- Cpplint.FileChecks      the checks of a whole file and of one elided line by itself
-- Cpplint.Paths           PathSplitToList, with os.path.split and os.path.join of a POSIX system
-- Cpplint.Arguments       ParseArguments, with getopt (Getopt), _ExpandDirectories and
--                         _FilterExcludedFiles
-- Cpplint.Config          ProcessConfigOverrides: the files CPPLINT.cfg above a file
-- Cpplint.FileInfo        FileInfo.FullName and RepositoryName
-- Cpplint.SplitName       FileInfo.Split, NoExtension, IsSource
-- Cpplint.HeaderGuard     GetHeaderGuardCPPVariable and CheckForHeaderGuard
-- Cpplint.Includes        CheckIncludeLine, _ClassifyInclude, _DropCommonSuffixes, _CPP_HEADERS
-- Cpplint.Required        CheckForIncludeWhatYouUse, UpdateIncludeState and the tables of templates
-- Cpplint.Style           the part of CheckStyle that is its own
-- Cpplint.SectionSpacing  CheckSectionSpacing
-- Cpplint.CommentSpacing  CheckComment
-- Cpplint.ProcessFile     the lines that ProcessFile and ProcessFileData make of a text
-- Cpplint.Nesting         the block classes and NestingState, with Update in Nesting.Update
-- Cpplint.SameModule      the sets of extensions, FilesBelongToSameModule
-- ClangTidy       run_clang_tidy.py and run_clang_tidy_extra.py: the command lines, CheckConfig, and
--                 in ClangTidy.Queue the queue of files with its threads, as a step relation
-- ClangFormat     run_clang_format.py: the files that it selects, and its exit code
-- Cpplint.Tests           the theorems at concrete inputs
--
-- Conventions. Global variables and mutable objects are records that the functions take and
-- return. Where the source gives -1 for "not found" the model gives `none`; an exception that a
-- function may raise is a value of its result. A check's calls of its argument `error` are the
-- list of reports that it returns. Characters are code points, and \s, \w, lower and upper are
-- those of ASCII. A loop that is no recursion on a list takes fuel. Each round of such a loop
-- over a line leaves a shorter line, so the loops of Nesting.Update, CleansedLines and Regex are
-- given one more than the length of their text; the one of RemoveMultiLineComments ends each round
-- behind the line where it began and is given one more than the number of lines; the one of
-- InTemplateArgumentList is given one more than the number of places in the file. The lines are
-- those that splitting a file at its newlines gives: they hold none themselves.
-- The walks over paths (PathSplitToList, RepositoryName, ProcessConfigOverrides) follow os.path of
-- a POSIX system, where each round shortens the path, and are given one more round than its
-- length; where that is not enough, a walk does not end at all, and the result is `none`. What the
-- file system holds, the working directory, relpath, normpath, the tables of unicodedata and the
-- order in which Python goes through a set are parameters, and in FilesBelongToSameModule and
-- CheckForIncludeWhatYouUse the parts of a name, which SplitName gives. A verbosity below 0 on the
-- command line ends the model, since LintState holds none.
--
-- Not modelled: file and terminal input and output, `main`, the usage text, the XML of
-- the JUnit report, and the remaining checks of cpplint.py; in the wrappers of clang-format and
-- clang-tidy, argparse, the processes that they start, temporary files and output; the C++ labs.
pub mod Base
pub mod ClangFormat
pub mod ClangTidy
pub mod Cpplint
pub mod Regex
