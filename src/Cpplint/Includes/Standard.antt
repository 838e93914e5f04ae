-- ===== src/Cpplint/Includes/Standard.antt =====
-- The set _CPP_HEADERS of cpplint.py.
use adv_database_implementat.Base.{List, [], ◌∷◌, String}

abbrev pub cpp_headers : List String
cpp_headers =
    "algobase.h" ∷ "algo.h" ∷ "alloc.h" ∷ "builtinbuf.h" ∷ "bvector.h" ∷ "complex.h" ∷ "defalloc.h"
    ∷ "deque.h" ∷ "editbuf.h" ∷ "fstream.h" ∷ "function.h" ∷ "hash_map" ∷ "hash_map.h" ∷ "hash_set"
    ∷ "hash_set.h" ∷ "hashtable.h" ∷ "heap.h" ∷ "indstream.h" ∷ "iomanip.h" ∷ "iostream.h"
    ∷ "istream.h" ∷ "iterator.h" ∷ "list.h" ∷ "map.h" ∷ "multimap.h" ∷ "multiset.h" ∷ "ostream.h"
    ∷ "pair.h" ∷ "parsestream.h" ∷ "pfstream.h" ∷ "procbuf.h" ∷ "pthread_alloc" ∷ "pthread_alloc.h"
    ∷ "rope" ∷ "rope.h" ∷ "ropeimpl.h" ∷ "set.h" ∷ "slist" ∷ "slist.h" ∷ "stack.h" ∷ "stdiostream.h"
    ∷ "stl_alloc.h" ∷ "stl_relops.h" ∷ "streambuf.h" ∷ "stream.h" ∷ "strfile.h" ∷ "strstream.h"
    ∷ "tempbuf.h" ∷ "tree.h" ∷ "type_traits.h" ∷ "vector.h" ∷ "algorithm" ∷ "array" ∷ "atomic"
    ∷ "bitset" ∷ "chrono" ∷ "codecvt" ∷ "complex" ∷ "condition_variable" ∷ "deque" ∷ "exception"
    ∷ "forward_list" ∷ "fstream" ∷ "functional" ∷ "future" ∷ "initializer_list" ∷ "iomanip" ∷ "ios"
    ∷ "iosfwd" ∷ "iostream" ∷ "istream" ∷ "iterator" ∷ "limits" ∷ "list" ∷ "locale" ∷ "map"
    ∷ "memory" ∷ "mutex" ∷ "new" ∷ "numeric" ∷ "ostream" ∷ "queue" ∷ "random" ∷ "ratio" ∷ "regex"
    ∷ "scoped_allocator" ∷ "set" ∷ "sstream" ∷ "stack" ∷ "stdexcept" ∷ "streambuf" ∷ "string"
    ∷ "strstream" ∷ "system_error" ∷ "thread" ∷ "tuple" ∷ "typeindex" ∷ "typeinfo" ∷ "type_traits"
    ∷ "unordered_map" ∷ "unordered_set" ∷ "utility" ∷ "valarray" ∷ "vector" ∷ "shared_mutex" ∷ "any"
    ∷ "charconv" ∷ "codecvt" ∷ "execution" ∷ "filesystem" ∷ "memory_resource" ∷ "optional"
    ∷ "string_view" ∷ "variant" ∷ "cassert" ∷ "ccomplex" ∷ "cctype" ∷ "cerrno" ∷ "cfenv" ∷ "cfloat"
    ∷ "cinttypes" ∷ "ciso646" ∷ "climits" ∷ "clocale" ∷ "cmath" ∷ "csetjmp" ∷ "csignal"
    ∷ "cstdalign" ∷ "cstdarg" ∷ "cstdbool" ∷ "cstddef" ∷ "cstdint" ∷ "cstdio" ∷ "cstdlib"
    ∷ "cstring" ∷ "ctgmath" ∷ "ctime" ∷ "cuchar" ∷ "cwchar" ∷ "cwctype" ∷ []
