-- ===== src/Driver/Sql/Queries.antt =====
-- driver/sqlite.go: the queries that find the rows that two databases do not share. `strings.ToUpper` is
-- a parameter.
use go_geodiff.Common.{◌==◌, Bool, List, [], ◌∷◌, ◌++◌, if◌then◌else◌, Bytes, codes, length}
use go_geodiff.Common.Text.{is_one_of}
use go_geodiff.Schema.{TableColumnInfo, TableSchema}
use go_geodiff.Driver.Sql.{with_clause, quote_ident}

-- `strings.Join`
unfoldable pub join : Bytes → List Bytes → Bytes
join sep [] = []
join sep (s ∷ []) = s
join sep (s ∷ t ∷ ts) = s ++ (sep ++ join sep (t ∷ ts))

module _ (to_upper : Bytes → Bytes) where
  abbrev projected_column : Bytes → Bytes → TableColumnInfo → Bytes
  projected_column db_name table c =
      let column =
        quote_ident db_name
        ++ (codes "." ++ (quote_ident table ++ (codes "." ++ quote_ident c.name))) in
      if is_one_of (to_upper c.type.db_type)
        (codes "DATE" ∷ codes "DATETIME" ∷ codes "TIMESTAMP" ∷ codes "BOOLEAN" ∷ codes "BOOL" ∷ [])
      then codes "+" ++ column
      else column

  unfoldable pub projected_columns : Bytes → Bytes → List TableColumnInfo → List Bytes
  projected_columns db_name table [] = []
  projected_columns db_name table (c ∷ cs) =
      projected_column db_name table c ∷ projected_columns db_name table cs

  unfoldable pub sql_value_projection : Bytes → Bytes → TableSchema → Bytes
  sql_value_projection db_name table tbl =
      join (codes ", ") (projected_columns db_name table tbl.columns)

-- The comparison of one column of the two databases.
unfoldable pub compare_columns : Bytes → Bytes → Bytes → Bytes
compare_columns test q_table q_col =
    codes "\"main\"."
    ++ (q_table
        ++ (codes "."
            ++ (q_col ++ (test ++ (codes "\"aux\"." ++ (q_table ++ (codes "." ++ q_col)))))))

unfoldable pub key_tests : Bytes → Bytes → List TableColumnInfo → Bytes
key_tests q_table sofar [] = sofar
key_tests q_table sofar (c ∷ cs) =
    key_tests q_table
      (if c.is_primary_key
        then with_clause (codes " AND ") sofar
            (compare_columns (codes "=") q_table (quote_ident c.name))
        else sofar)
      cs

unfoldable pub other_tests : Bytes → Bytes → List TableColumnInfo → Bytes
other_tests q_table sofar [] = sofar
other_tests q_table sofar (c ∷ cs) =
    other_tests q_table
      (if c.is_primary_key
        then sofar
        else with_clause (codes " OR ") sofar
            (compare_columns (codes " IS NOT ") q_table (quote_ident c.name)))
      cs

module _ (to_upper : Bytes → Bytes) where
  unfoldable pub sql_find_inserted : Bytes → TableSchema → Bool → Bytes
  sql_find_inserted table tbl reverse =
      let q_table = quote_ident table in
      let from_db = if reverse then codes "aux" else codes "main" in
      let other_db = if reverse then codes "main" else codes "aux" in
      codes "SELECT "
      ++ (sql_value_projection to_upper from_db table tbl
          ++ (codes " FROM \""
              ++ (from_db
                  ++ (codes "\"."
                      ++ (q_table
                          ++ (codes " WHERE NOT EXISTS (SELECT 1 FROM \""
                              ++ (other_db
                                  ++ (codes "\"."
                                      ++ (q_table
                                          ++ (codes " WHERE "
                                              ++ (key_tests q_table [] tbl.columns
                                                  ++ codes ")")))))))))))

  unfoldable pub sql_find_modified : Bytes → TableSchema → Bytes
  sql_find_modified table tbl =
      let q_table = quote_ident table in
      let others = other_tests q_table [] tbl.columns in
      let start =
        codes "SELECT "
        ++ (sql_value_projection to_upper (codes "main") table tbl
            ++ (codes ", "
                ++ (sql_value_projection to_upper (codes "aux") table tbl
                    ++ (codes " FROM \"main\"."
                        ++ (q_table
                            ++ (codes ", \"aux\"."
                                ++ (q_table
                                    ++ (codes " WHERE "
                                        ++ key_tests q_table [] tbl.columns)))))))) in
      if length others == 0 then start else start ++ (codes " AND (" ++ (others ++ codes ")"))
