-- ===== src/Lib.antt =====
-- Duplicate Finder: the decisions of the daemon under server/, and what makes them safe.
--
-- The daemon scans folders of a NAS for duplicate files, empty folders, junk and conflicting
-- copies, keeps one stored result per tool, serves it in pages, and moves what the user selects.
-- A scan reads the tree in one streaming pass; a counter of candidate keys decides which files
-- are worth hashing; the result is capped and stored. A page refines, filters, sorts and cuts the
-- stored result and writes the padlocks and the reclaimable figures. A move is checked against
-- the stored groups, so that a copy of each content stays, and then pruned from every result.
--
-- Which file models which part:
--   Base, Base/*            Go strings as lists of bytes, int64 as bit patterns, list lemmas.
--   FilePath                Go's path/filepath as the program calls it.
--   Model                   server/model.go: FileEnt, Group, MatchOpts, toolResult.
--   Paths                   server/paths.go, and volumeOf of server/move.go. The volume list and
--                           EvalSymlinks are arguments (`vols`, `eval`).
--   KeepOne                 server/move.go: keepOneDropsWhy, keepOneDrops. The maps and closures
--                           that the caller passes are the fields of `Request`.
--   Prune                   server/move.go: pruneMoved; `Moved` holds its arguments.
--   Vetting                 server/move.go: entIdent, moveVet, refuse, identMatches and
--                           crossVolumeNeed, with server/selfmount.go's under. File Station's
--                           time format is an argument (`fmt`).
--   Transit                 server/transit.go: transitViaFS, discardCopy, retireOriginal,
--                           restoreOriginal. What the calls do and answer is an argument
--                           (`Answers`) that nothing is assumed of; other programs do not
--                           touch the entry meanwhile.
--   Results/Paging, Trim    server/results.go: clampPage, slicePage, trimGroupRows.
--   Results/Protection      refMatcher: newRefMatcher, protects, markGroupProt, markFileProt.
--   Results/Reclaim         rowPhys, groupReclaim, markGroupReclaim and the totals of a view.
--   Results/Refine          refineGroups, filterGroups.
--   Results/Search          resultsQuery, typeExts, compileSearch, match; verdictSearchText of
--                           server/corrupt.go.
--   Results/Dates           dateSpan, dateRanges, scanDateRanges.
--   Results/View            sortFiles, viewKey, buildView.
--   KeyCounter              server/stream.go: keyCounter.
--   Scan/Bounded            server/stream.go: boundedTop and groupTop, with weight and betterGroup.
--                           Of a slice that container/heap orders, only the root and, sorted, the
--                           elements are read: it is modelled with its least element first.
--   Scan/Spill, Windows     server/stream.go: the enumeration log. Spill has addRaw and each with
--                           encoding/binary's integers, Windows candHash, distil, materialize,
--                           window, tagWindow, tagsIn, tagSlice and tagsDiffer. Windows/Walk has the
--                           counting and logging of runScan's walk and the sweep of
--                           distilCandidates.
--   HashCache               server/hashcache.go: hashCache with lookup, priorContentChanged, record,
--                           changedPath and the trims; HashCache/File has saveTrim and
--                           loadHashCache on the bytes of the file. pathTag, which is BLAKE3, is an
--                           argument (`tag_of`).
--   Corrupt                 server/corrupt.go: isCorruptedSet, betterSet, verdictLabel and judgeSet
--                           with judgeShape, judgePast, judgeWithTwins and representatives;
--                           buildSet, corruptTop and, without the rows it makes, final;
--                           CompareContent and Describe of server/internal/media/verify.go. The
--                           verdict and evidence of a corruptFile, and the slices of judgeSet, stand
--                           in a Member beside the file. What the disk, VerifyContent and the cancel
--                           channel answer is an argument (`Disk`), and so is FmtBytes.
--   ByteSafe                server/bytesafe.go: escapeBytes, unescapeBytes, jsonQuote, jsonArr, with
--                           utf8.DecodeRuneInString and utf8.AppendRune.
--   Scan/*                  server/scan.go, server/duplicates.go, server/handlers.go and
--                           server/tempfiles.go: copies and sizes, caps, roots, tools, junk.
--   EmptyFolders            server/emptyfolders.go: the walk state emptyFolderScan.
--   Admission               server/daemon.go: how scans and moves exclude each other, with the
--                           critical sections of handleScan and runScan.
--   Examples                runs of the theorems on small inputs.
--
-- Loops are structural recursion over the list that the code ranges over. Fuel is used in `itoa`,
-- which takes one more than the number it prints, as every round divides by ten, in the loops of
-- escapeBytes and unescapeBytes, which take the length of the string, as every round takes at
-- least one byte, and in PutUvarint and ReadUvarint, whose ten rounds are MaxVarintLen64. Sums of
-- sizes wrap at 2 ^ 64 as in Go. Maps whose order the code does not use are association lists or
-- lists of their true keys; a map that a caller fills is a function. Stable sorting is insertion;
-- the sort of the scan roots by length, which Go leaves open for roots of equal length, is the
-- stable one. Lower and upper case are those of ASCII bytes.
--
-- Not modelled: the file system, HTTP and File Station themselves, hashing, the windows of
-- server/duplicates.go, the scan pass of server/corrupt.go, persistence, and the
-- parsers and validators of server/internal/media. The confirmation of empty folders through File Station is left
-- out, and `offered` is what its bounded list was handed.
pub mod Base
pub mod FilePath
pub mod Model
pub mod Paths
pub mod KeepOne
pub mod Prune
pub mod Vetting
pub mod Transit
pub mod Results
pub mod KeyCounter
pub mod EmptyFolders
pub mod Admission
pub mod ByteSafe
pub mod Corrupt
pub mod HashCache
pub mod Examples
pub mod Scan
