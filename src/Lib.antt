-- ===== src/Lib.antt =====
-- go-geodiff: the changeset format, the merging and inverting of changes, and the rebase of one set of
-- changes on another.
--
-- The program makes, stores, combines and applies binary diffs of GeoPackage and SQLite databases. This
-- library models:
--   varint/varint.go        SQLite's variable-length integers          Varint
--   changeset/types.go      values, tables, entries                    Changeset.Types
--                           a value's JSON form                        Json.Typed
--   changeset/reader.go     from bytes to entries                      Changeset.Reader
--   changeset/writer.go     from entries to bytes                      Changeset.Writer
--   changeset/concat.go     merging two changes of one row             Changeset.Merge
--                           pkKey, ConcatChangesets                    Changeset.Concat
--   changeset/utils.go      InvertChangeset, conflict records          Changeset.Invert, Rebase.Handlers
--                           the JSON views                             Json
--   driver/rebase.go        keys and their tables                      Rebase
--                           parseOldChangeset                          Rebase.Parse
--                           findMappingForNewChangeset                 Rebase.Mapping
--                           the handlers of one entry                  Rebase.Handlers
--                           prepareNewChangeset, Rebase                Rebase.Driver
--                           MarshalConflicts                           Json.Conflicts
--   driver/sqlite.go        quoting, statements, queries, arguments    Driver.Sql
--                           ApplyChangeset                             Driver.Apply
--                           CreateChangeset                            Driver.Diff
--                           DumpData                                   Driver.Dump
--                           TableSchema                                Driver.Schemas
--                           CreateTables                               Driver.Tables
--   driver/sqlite_utils.go  the triggers of an apply                   Driver.Apply
--   driver/gpkg_functions.go, geodiff/api.go: geometry headers         Geometry
--   driver/gpkg_functions.go: the envelopes of WKB bodies              Geometry.Wkb, Geometry.Arcs
--   schema/table.go         schemas and column types                   Schema
--   geodiff/context.go      the table filter                           Filters
--   geodiff/api.go          HasChanges, ChangesCount, ConcatChanges    Api
--                           ListChanges, ListChangesSummary            Json.Listing
--                           Schema                                     Json.Schemas
-- The reader takes its lengths from `GetVarint` and the writer from `PutVarint`; inverting and
-- rebasing read entries in a loop around `NextEntry` and write the results table by table, a loop
-- that Changeset.Stream has once. A function of the model has the Go name in the spelling of this
-- library: `read_row_values` is `readRowValues`, `merge_entries` is `mergeEntriesForRow`.
--
-- Changeset.Effect says what a change does to a row, apart from the code, and without a negative zero;
-- merging, inverting and rebasing are proved against it. Json.Meaning says the same of a JSON object. Common has lists, tests, bits and Go's maps; Result has the errors.
-- Tests runs the model on concrete inputs. The driver compares schemas by Schema, takes the keys of a
-- table from them, writes through Changeset.Writer and reads through the loop around `NextEntry`.
--
-- The SQLite database is a parameter of the driver: `Database` says what it answers to a statement and
-- what state it is in then, `Source` what two open databases answer to queries, `Catalog` what the queries for
-- a schema give, `Creator` what the making of tables meets. What an apply relies on
-- is the record `Savepoints`: SQLite's SAVEPOINT, ROLLBACK TO and RELEASE, with the statements between
-- them. It leaves out tables whose own ON CONFLICT ROLLBACK clause would end the transaction.
--
-- An int64 and a float64 are their 64-bit patterns, a string or blob the list of its bytes; shifts and
-- additions that wrap have their `% 2 ^ w` written out. A Go error is a value of `Result`, and so is
-- the panic of an index out of range. A slice that is given to a marshaller is nil or made. A method of the reader or the writer returns its result and the
-- state that it leaves, on an error too.
--
-- A Go map is an association list. Where its order matters, in the search for new keys
-- of a rebase and in the output of a concatenation, the order is a parameter; so is the formatting of
-- numbers by strconv and of bytes by hex. A JSON view is the Go value that is given to encoding/json, whose
-- marshaller is a parameter, as base64 is. The rounded arithmetic of float64 and package math are the
-- interface `Floats`; comparing float64s is defined on their bits.
--
-- The loop of `NextEntry` runs on fuel, one more than the bytes of the buffer: each of its rounds
-- consumes one byte at least. So do the loops around it, for an entry takes a byte at least. The
-- recursion over the members of a WKB geometry has one more than the bytes of the body as well. The chunk
-- loop of `putVarint64` has the fuel 10, the length of its array, and a uint64 has ten 7-bit chunks. The
-- rounds of retries of an apply have the fuel of the entries that conflicted and one more, for each
-- round leaves fewer or is the last.
--
-- Not modelled: opening, closing and writing of files, whose errors are the system's; the connection of
-- the SQLite driver; RebaseDirect; logging and the functions of the public API that only open files and dispatch.
pub mod Common
pub mod Result
pub mod Varint
pub mod Changeset
pub mod Rebase
pub mod Schema
pub mod Tests
pub mod Driver
pub mod Geometry
pub mod Json
pub mod Filters
pub mod Api
